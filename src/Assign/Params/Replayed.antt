-- ===== src/Assign/Params/Replayed.antt =====
-- The parameters of the workers: each has its traces in the order of time, and hints that cover them.
use gogeta_fs_ae.Common.{
  ℕ, suc, ◌+◌, ◌^◌, ◌≡◌, ◌≤◌, ◌<◌, refl, ap, sym, subst, ◌∙◌, true, some, List, [], ◌∷◌, ◌++◌, map,
  append_assoc, append-nil, leb, le→leb, length, length-append, length-drop, length-take, take,
  drop, ok, err, out_of_bounds, ◌>>=◌, >>=-ok, >>=-err, read, if◌then◌else◌, arith,
}
use gogeta_fs_ae.Trace.{TraceInfo, TraceReplayHint}
use gogeta_fs_ae.Slice.{Holds, Holds-self, Holds-append, Holds-prefix}
use gogeta_fs_ae.Container.{TraceContainer}
use gogeta_fs_ae.Container.Contents.{Contains}
use gogeta_fs_ae.Sort.Stable.{IsSorted, SameRuns}
use gogeta_fs_ae.Sort.Whole.{sort_infomap_by_ts-sorts, sort_infomap_by_ts-empty}
use gogeta_fs_ae.Hints.Cover.{IsRun-length, Covers, AllWithin, extract_hints-Covers}
use gogeta_fs_ae.Hints.Size.{extract_hints-le}
use gogeta_fs_ae.Assign.Params.{infos_from, Share, share_of, shares_of}

-- A container's cells are read back.
infos_from-Holds :
    (tc : TraceContainer) (i : ℕ) (l : List TraceInfo)
    → Holds tc.infos_map i (map some l)
    → infos_from (length l) i tc ≡ ok l
unfolding infos_from
infos_from-Holds tc i [] h = refl
infos_from-Holds tc i (x ∷ l) h =
    >>=-ok _ (ap (λ c. read c >>= read) h.0) ∙ >>=-ok _ (infos_from-Holds tc (suc i) l h.1)

infos_from-Contains :
    (tc : TraceContainer) (l : List TraceInfo) → Contains tc l → infos_from tc.size 0 tc ≡ ok l
infos_from-Contains tc l c =
    let slice : Holds tc.infos_map 0 (map some l) =
      rw c.cells (Holds-prefix (map some l) c.spare) in
    ap (λ n. infos_from n 0 tc) c.counted ∙ infos_from-Holds tc 0 l slice

-- There are no more hints than traces.
Covers-length :
    (max_blks start : ℕ) (hs : List TraceReplayHint) (l : List TraceInfo)
    → Covers max_blks start hs l
    → length hs ≤ length l
Covers-length max_blks start [] l c = omega arith
Covers-length max_blks start (h ∷ hs) l c =
    let k = h.continuous_blks in
    omega (
      arith,
      c.2,
      length-take k l,
      IsRun-length h.rw (take k l) c.3,
      length-drop k l,
      Covers-length max_blks (start + k) hs (drop k l) c.4,
    )

-- A worker without a trace makes the sort read outside of its array.
pub share_of-empty :
    (max_blks valid_lines : ℕ) (hints : List TraceReplayHint) (tc : TraceContainer)
    → Contains tc []
    → share_of max_blks valid_lines hints tc ≡ err out_of_bounds
unfolding share_of
share_of-empty max_blks valid_lines hints tc c =
    >>=-ok _ (infos_from-Contains tc [] c) ∙ >>=-err _ sort_infomap_by_ts-empty

-- The traces in the order of time, and hints that cut them into runs and stand in the array `hints`.
pub record Prepared (max_blks : ℕ) (hints : List TraceReplayHint) (l : List TraceInfo)
    (share : Share) : Type 0 where
  pub sorted : IsSorted share.infos
  pub same : SameRuns l share.infos
  pub covers : Covers max_blks 0 share.scan.hints share.infos
  pub within : AllWithin share.scan.max_continuous share.scan.hints
  pub slice : Holds hints share.hints_start share.scan.hints
  pub ends : share.hints_end ≡ share.hints_start + length share.scan.hints
  pub sized : share.scan.max_continuous ≤ length l

-- A slice of an array between two others.
Holds-middle {ℓ} : {A : Type ℓ} (pre l post : List A) → Holds (pre ++ (l ++ post)) (length pre) l
Holds-middle pre l post =
    let infos = pre ++ (l ++ post) in
    (Holds-append infos (length pre) (length pre + length l) l post refl
      (Holds-append infos 0 (length pre) pre (l ++ post) (omega arith) (Holds-self infos)).1).0

module _ (max_blks valid_lines : ℕ) where
  pub share_of-ok :
      (hints : List TraceReplayHint) (tc : TraceContainer) (l : List TraceInfo)
      → Contains tc l
      → 1 ≤ length l
      → length l < 2 ^ 31
      → length hints + length l ≤ valid_lines
      → (share : Share) × (share_of max_blks valid_lines hints tc ≡ ok share)
        × (length share.scan.hints ≤ length l)
        × ((more : List TraceReplayHint)
            → Prepared max_blks (hints ++ (share.scan.hints ++ more)) l share)
  unfolding share_of
  share_of-ok hints tc l c some_trace int_size room =
      let (infos, e₁, sorted, same, size) = sort_infomap_by_ts-sorts l some_trace int_size in
      let (scan, e₂, covers, within) =
        extract_hints-Covers max_blks infos (omega (arith, size, some_trace)) in
      let few = Covers-length max_blks 0 scan.hints infos covers in
      let most = extract_hints-le max_blks infos scan (omega (arith, size, some_trace)) e₂ in
      let sized : scan.max_continuous ≤ length l = omega (arith, most, size) in
      let hints_end : ℕ = length hints + length scan.hints in
      let fits : leb hints_end valid_lines ≡ true =
        le→leb hints_end valid_lines (omega (arith, few, size, room)) in
      let share : Share = record {
        infos = infos;
        scan = scan;
        hints_start = length hints;
        hints_end = hints_end;
      } in
      (
        share,
        >>=-ok _ (infos_from-Contains tc l c)
            ∙ >>=-ok _ e₁
            ∙ >>=-ok _ e₂
            ∙ ap (λ b. if b then ok share else err out_of_bounds) fits,
        omega (arith, few, size),
        λ more. record {
          sorted = sorted;
          same = same;
          covers = covers;
          within = within;
          slice = Holds-middle hints scan.hints more;
          ends = refl;
          sized = sized;
        },
      )

  -- Every container holds its traces, and each has at least one.
  abbrev pub Loaded : List TraceContainer → List (List TraceInfo) → Type 0
  Loaded [] [] = Unit
  Loaded [] (l ∷ ls) = ⊥
  Loaded (tc ∷ tcs) [] = ⊥
  Loaded (tc ∷ tcs) (l ∷ ls) = Contains tc l × (1 ≤ length l) × (length l < 2 ^ 31) × Loaded tcs ls

  abbrev pub AllPrepared : List TraceReplayHint → List (List TraceInfo) → List Share → Type 0
  AllPrepared hints [] [] = Unit
  AllPrepared hints [] (s ∷ ss) = ⊥
  AllPrepared hints (l ∷ ls) [] = ⊥
  AllPrepared hints (l ∷ ls) (s ∷ ss) = Prepared max_blks hints l s × AllPrepared hints ls ss

  abbrev pub total_length : List (List TraceInfo) → ℕ
  total_length [] = 0
  total_length (l ∷ ls) = length l + total_length ls

  shares_of-behind :
      (hints : List TraceReplayHint) (tcs : List TraceContainer) (ls : List (List TraceInfo))
      → Loaded tcs ls
      → length hints + total_length ls ≤ valid_lines
      → (shares : List Share) × (more : List TraceReplayHint) × (shares_of max_blks valid_lines
            hints tcs
          ≡ ok (shares, hints ++ more))
        × AllPrepared (hints ++ more) ls shares
  unfolding shares_of
  shares_of-behind hints [] [] h room = ([], [], ap (λ r. ok ([], r)) (sym (append-nil hints)), tt)
  shares_of-behind hints [] (l ∷ ls) h room = absurd h
  shares_of-behind hints (tc ∷ tcs) [] h room = absurd h
  shares_of-behind hints (tc ∷ tcs) (l ∷ ls) h room =
      let (share, e, few, prepared) = share_of-ok hints tc l h.0 h.1 h.2 (omega (arith, room)) in
      let own = share.scan.hints in
      let (shares, more, e', rest) =
        shares_of-behind (hints ++ own) tcs ls h.3
          (omega (arith, room, few, length-append hints own)) in
      let flat : hints ++ own ++ more ≡ hints ++ (own ++ more) = append_assoc hints own more in
      (
        share ∷ shares,
        own ++ more,
        >>=-ok _ e ∙ >>=-ok _ e' ∙ ap (λ r. ok (share ∷ shares, r)) flat,
        (prepared more, subst (λ r. AllPrepared r ls shares) flat rest),
      )

  -- If every worker has a trace and the traces are no more than the hints' array has cells, the loop
  -- over the workers succeeds and stays inside that array. Each worker then has its own traces, in
  -- the order of time and with the order of the container among equal times, and its part of the
  -- array cuts them into runs of one mode and consecutive blocks.
  pub shares_of-AllPrepared :
      (tcs : List TraceContainer) (ls : List (List TraceInfo))
      → Loaded tcs ls
      → total_length ls ≤ valid_lines
      → (shares : List Share) × (hints : List TraceReplayHint) × (shares_of max_blks valid_lines []
            tcs
          ≡ ok (shares, hints))
        × AllPrepared hints ls shares
  shares_of-AllPrepared tcs ls h room = shares_of-behind [] tcs ls h (omega (arith, room))
