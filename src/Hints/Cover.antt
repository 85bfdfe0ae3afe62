-- ===== src/Hints/Cover.antt =====
-- What the hints of a worker say of its traces: runs of consecutive blocks that cover all of them.
use Prim.Native.Nat.{max}
use gogeta_fs_ae.Common.{
  ℕ, suc, ◌+◌, ◌-◌, ◌≤◌, ◌<◌, ◌≡◌, refl, ap, sym, subst, ◌∙◌, Bool, true, List, [], ◌∷◌, ◌++◌, some,
  ltb, length, get_elem?, Result, ok, ◌>>=◌, >>=-ok, read, if◌then◌else◌, take, drop, last?,
  last?-append, take-append_le, drop-append_le, take-length, drop-length, length-append,
  length-drop, append_assoc, append-nil, arith, Bool-cases, inl, inr,
}
use gogeta_fs_ae.Trace.{TraceInfo, TraceReplayHint}
use gogeta_fs_ae.Slice.{Holds, Holds-self, Holds-append, Holds-last}
use gogeta_fs_ae.Hints.{lba_diff, continues, Scan, save_hint, scan_from, extract_hints}

-- A run of one mode, in which each block follows the one before it (8 sectors of 512 bytes).
abbrev pub IsRun : ℕ → List TraceInfo → Type 0
IsRun mode [] = ⊥
IsRun mode (x ∷ []) = x.rw ≡ mode
IsRun mode (x ∷ y ∷ l) = (x.rw ≡ mode) × (lba_diff y x ≡ 8) × IsRun mode (y ∷ l)

module _ (max_blks : ℕ) where
  -- The hints, from line `start` on, cut the traces into runs of at most `max_blks` blocks.
  abbrev pub Covers : ℕ → List TraceReplayHint → List TraceInfo → Type 0
  Covers start [] l = l ≡ []
  Covers start (h ∷ hs) l =
      (h.start_trace_line ≡ start)
      × (h.continuous_blks ≤ max 1 max_blks)
      × (h.continuous_blks ≤ length l)
      × IsRun h.rw (take h.continuous_blks l)
      × Covers (start + h.continuous_blks) hs (drop h.continuous_blks l)

-- No hint is longer than `m`.
abbrev pub AllWithin : ℕ → List TraceReplayHint → Type 0
AllWithin m [] = Unit
AllWithin m (h ∷ hs) = (h.continuous_blks ≤ m) × AllWithin m hs

AllWithin-append :
    (m m' : ℕ) (hs : List TraceReplayHint) (h : TraceReplayHint)
    → AllWithin m hs
    → m ≤ m'
    → h.continuous_blks ≤ m'
    → AllWithin m' (hs ++ h ∷ [])
AllWithin-append m m' [] h a le new = (new, tt)
AllWithin-append m m' (x ∷ hs) h a le new = (omega arith, AllWithin-append m m' hs h a.1 le new)

IsRun-snoc :
    (mode : ℕ) (l : List TraceInfo) (p x : TraceInfo)
    → IsRun mode l
    → last? l ≡ some p
    → lba_diff x p ≡ 8
    → x.rw ≡ p.rw
    → IsRun mode (l ++ x ∷ [])
IsRun-snoc mode [] p x run last d r = absurd run
IsRun-snoc mode (y ∷ []) p x run last d r = ground (arith, last, run, d, r)
IsRun-snoc mode (y ∷ z ∷ l) p x run last d r =
    (run.0, run.1, IsRun-snoc mode (z ∷ l) p x run.2 last d r)

-- The first trace of a run that stands in the array has the run's mode.
IsRun-first :
    (mode i : ℕ) (infos l rest : List TraceInfo)
    → IsRun mode l
    → Holds infos i (l ++ rest)
    → (first : TraceInfo) × (get_elem? infos i ≡ some first) × (first.rw ≡ mode)
IsRun-first mode i infos [] rest r h = absurd r
IsRun-first mode i infos (x ∷ []) rest r h = (x, h.0, r)
IsRun-first mode i infos (x ∷ y ∷ l) rest r h = (x, h.0, r.0)

pub IsRun-length : (mode : ℕ) (l : List TraceInfo) → IsRun mode l → 1 ≤ length l
IsRun-length mode [] r = absurd r
IsRun-length mode (x ∷ l) r = omega arith

module _ (max_blks : ℕ) where
  -- One more run behind those that the hints cover.
  Covers-append :
      (start : ℕ) (hs : List TraceReplayHint) (l run : List TraceInfo) (h : TraceReplayHint)
      → Covers max_blks start hs l
      → h.start_trace_line ≡ start + length l
      → h.continuous_blks ≡ length run
      → length run ≤ max 1 max_blks
      → IsRun h.rw run
      → Covers max_blks start (hs ++ h ∷ []) (l ++ run)
  Covers-append start [] l run h c e n fits r =
      let none_before = ap length c in
      subst (λ done. Covers max_blks start (h ∷ []) (done ++ run)) (sym c)
        (
          omega arith,
          omega arith,
          omega arith,
          subst (IsRun h.rw) (sym (ap (λ k. take k run) n ∙ take-length run)) r,
          ap (λ k. drop k run) n ∙ drop-length run,
        )
  Covers-append start (x ∷ hs) l run h c e n fits r =
      let k = x.continuous_blks in
      (
        c.0,
        c.1,
        omega (arith, length-append l run, c.2),
        subst (IsRun x.rw) (sym (take-append_le k l run c.2)) c.3,
        subst (Covers max_blks (start + k) (hs ++ h ∷ [])) (sym (drop-append_le k l run c.2)) (
            Covers-append (start + k) hs (drop k l) run h c.4 (omega (arith, length-drop k l, c.2))
              n fits r),
      )

  -- The state of the loop before it looks at line `j`: the hints cover `done`, and `cur` is the run
  -- that is not saved yet.
  record Inv (infos : List TraceInfo) (j : ℕ) (s : Scan) (rest : List TraceInfo) : Type 0 where
    done : List TraceInfo
    cur : List TraceInfo
    mode : ℕ
    prev : TraceInfo
    split : infos ≡ done ++ (cur ++ rest)
    covers : Covers max_blks 0 s.hints done
    within : AllWithin s.max_continuous s.hints
    start : s.consecutive_start ≡ length done
    next : j ≡ length done + length cur
    is_run : IsRun mode cur
    ends : last? cur ≡ some prev
    fits : length cur ≤ max 1 max_blks

  module _ (infos : List TraceInfo) (j : ℕ) (s : Scan) (rest : List TraceInfo)
      (v : Inv infos j s rest) where
    Inv-Holds : Holds infos s.consecutive_start (v.cur ++ rest)
    Inv-Holds =
        (Holds-append infos 0 s.consecutive_start v.done (v.cur ++ rest) (omega (arith, v.start))
          (subst (Holds infos 0) v.split (Holds-self infos))).1

    -- Saving the run succeeds, and the hints then cover it too.
    save_hint-ok :
        (s' : Scan) × (save_hint infos j s ≡ ok s')
        × Covers max_blks 0 s'.hints (v.done ++ v.cur)
        × AllWithin s'.max_continuous s'.hints
        × (s'.consecutive_start ≡ j)
    unfolding save_hint
    save_hint-ok =
        let (first, e, kind) =
          IsRun-first v.mode s.consecutive_start infos v.cur rest v.is_run Inv-Holds in
        let blks : ℕ = j - s.consecutive_start in
        let m : ℕ = if ltb s.max_continuous blks then blks else s.max_continuous in
        let h : TraceReplayHint = record {
          continuous_blks = blks;
          start_trace_line = s.consecutive_start;
          rw = first.rw;
        } in
        (
          record { hints = s.hints ++ h ∷ []; max_continuous = m; consecutive_start = j },
          >>=-ok _ (ap read e),
          Covers-append 0 s.hints v.done v.cur h v.covers (omega (arith, v.start))
              (omega (arith, v.start, v.next)) v.fits
              (subst (λ k. IsRun k v.cur) (sym kind) v.is_run),
          AllWithin-append s.max_continuous m s.hints h v.within (ground arith) (ground arith),
          refl,
        )

  module _ (infos : List TraceInfo) (j : ℕ) (s : Scan) (x : TraceInfo) (rest : List TraceInfo)
      (v : Inv infos j s (x ∷ rest)) where
    here : get_elem? infos j ≡ some x
    here =
        (Holds-append infos s.consecutive_start j v.cur (x ∷ rest) (omega (arith, v.start, v.next))
          (Inv-Holds infos j s (x ∷ rest) v)).1.0

    before : get_elem? infos (j - 1) ≡ some v.prev
    before =
        let whole = Inv-Holds infos j s (x ∷ rest) v in
        let cur_slice =
          (Holds-append infos s.consecutive_start j v.cur (x ∷ rest)
            (omega (arith, v.start, v.next)) whole).0 in
        let at : j - 1 ≡ s.consecutive_start + length v.cur - 1 = omega (arith, v.start, v.next) in
        ap (get_elem? infos) at ∙ Holds-last infos s.consecutive_start v.cur cur_slice v.ends

    -- The trace joins the run.
    Inv-join : continues max_blks v.prev x j s.consecutive_start ≡ true → Inv infos (suc j) s rest
    unfolding continues
    Inv-join h =
        let diff : lba_diff x v.prev ≡ 8 = ground arith in
        let kind : x.rw ≡ v.prev.rw = ground arith in
        let room : j - s.consecutive_start < max_blks = ground arith in
        let size = length-append v.cur (x ∷ []) in
        record {
          done = v.done;
          cur = v.cur ++ x ∷ [];
          mode = v.mode;
          prev = x;
          split = v.split ∙ ap (λ l. v.done ++ l) (sym (append_assoc v.cur (x ∷ []) rest));
          covers = v.covers;
          within = v.within;
          start = v.start;
          next = omega (arith, size, v.next);
          is_run = IsRun-snoc v.mode v.cur v.prev x v.is_run v.ends diff kind;
          ends = last?-append v.cur x;
          fits = omega (arith, size, v.next, v.start);
        }

    -- The run is saved, and the trace begins another.
    Inv-save :
        (s' : Scan)
        → Covers max_blks 0 s'.hints (v.done ++ v.cur)
        → AllWithin s'.max_continuous s'.hints
        → s'.consecutive_start ≡ j
        → Inv infos (suc j) s' rest
    Inv-save s' covers within at = record {
      done = v.done ++ v.cur;
      cur = x ∷ [];
      mode = x.rw;
      prev = x;
      split = v.split ∙ sym (append_assoc v.done v.cur (x ∷ rest));
      covers = covers;
      within = within;
      start = omega (arith, at, v.next, length-append v.done v.cur);
      next = omega (arith, v.next, length-append v.done v.cur);
      is_run = refl;
      ends = refl;
      fits = omega arith;
    }

    -- One round of the loop.
    scan_from-step :
        (n : ℕ)
        → (s' : Scan) × (scan_from max_blks infos (suc n) j s
            ≡ scan_from max_blks infos n (suc j) s')
          × Inv infos (suc j) s' rest
    unfolding scan_from
    scan_from-step n = elim (Bool-cases (continues max_blks v.prev x j s.consecutive_start)) [
      | inl join ↦ (s, reads ∙ >>=-ok _ (ap pick join), Inv-join join)
      | inr new ↦
          let (s', e, covers, within, at) = save_hint-ok infos j s (x ∷ rest) v in
          (s', reads ∙ >>=-ok _ (ap pick new ∙ e), Inv-save s' covers within at)
    ]
      where
        pick : Bool → Result Scan
        pick b = if b then ok s else save_hint infos j s

        reads : scan_from max_blks infos (suc n) j s ≡ (
            pick (continues max_blks v.prev x j s.consecutive_start)
            >>= scan_from max_blks infos n (suc j))
        reads = >>=-ok _ (ap read here) ∙ >>=-ok _ (ap read before)

  scan_from-Inv :
      (infos rest : List TraceInfo) (j : ℕ) (s : Scan)
      → Inv infos j s rest
      → (s' : Scan) × (scan_from max_blks infos (length rest) j s ≡ ok s')
        × Inv infos (j + length rest) s' []
  unfolding scan_from
  scan_from-Inv infos [] j s v =
      let same : j ≡ j + 0 = omega arith in (s, refl, subst (λ k. Inv infos k s []) same v)
  scan_from-Inv infos (x ∷ rest) j s v =
      let (s₁, e₁, v₁) = scan_from-step infos j s x rest v (length rest) in
      let (s₂, e₂, v₂) = scan_from-Inv infos rest (suc j) s₁ v₁ in
      let same : suc j + length rest ≡ j + suc (length rest) = omega arith in
      (s₂, e₁ ∙ e₂, subst (λ k. Inv infos k s₂ []) same v₂)

-- For a worker with traces the loop succeeds. Its hints cut the traces, in order and with none left
-- over, into runs of one mode and consecutive blocks, of at most max(1, -c) blocks each, and the
-- buffer size that is kept beside them is enough for every hint.
pub extract_hints-Covers :
    (max_blks : ℕ) (infos : List TraceInfo)
    → 1 ≤ length infos
    → (s : Scan) × (extract_hints max_blks infos ≡ ok s)
      × Covers max_blks 0 s.hints infos
      × AllWithin s.max_continuous s.hints
unfolding extract_hints
extract_hints-Covers max_blks [] h = absurd (omega arith)
extract_hints-Covers max_blks (x ∷ rest) h =
    let start : Scan = record { hints = []; max_continuous = 0; consecutive_start = 0 } in
    let first : Inv max_blks (x ∷ rest) 1 start rest = record {
      done = [];
      cur = x ∷ [];
      mode = x.rw;
      prev = x;
      split = refl;
      covers = refl;
      within = tt;
      start = refl;
      next = omega arith;
      is_run = refl;
      ends = refl;
      fits = omega arith;
    } in
    let (s₁, e₁, v₁) = scan_from-Inv max_blks (x ∷ rest) rest 1 start first in
    let (s₂, e₂, covers, within, at) =
      save_hint-ok max_blks (x ∷ rest) (1 + length rest) s₁ [] v₁ in
    let size : 1 + length rest ≡ suc (length rest) = omega arith in
    let rounds : suc (length rest) - 1 ≡ length rest = omega arith in
    let whole : v₁.done ++ v₁.cur ≡ x ∷ rest =
      ap (λ l. v₁.done ++ l) (sym (append-nil v₁.cur)) ∙ sym v₁.split in
    (
      s₂,
      >>=-ok _ (ap (λ n. scan_from max_blks (x ∷ rest) n 1 start) rounds ∙ e₁)
          ∙ ap (λ k. save_hint (x ∷ rest) k s₁) (sym size)
          ∙ e₂,
      subst (Covers max_blks 0 s₂.hints) whole covers,
      within,
    )
