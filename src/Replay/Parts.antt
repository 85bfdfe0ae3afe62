-- ===== src/Replay/Parts.antt =====
-- The parts of the trace that the workers get: a worker without a trace, or all with some.
use gogeta_fs_ae.Common.{
  flat, flat-append, map, ℕ, ◌+◌, ◌^◌, ◌≡◌, ◌≤◌, ◌<◌, ◌⊎◌, inl, inr, refl, ap, sym, subst, ◌∙◌,
  dec_lt, List, [], ◌∷◌, ◌++◌, length, nil_of_length, length-append, err, out_of_bounds, >>=-ok,
  >>=-err, arith,
}
use gogeta_fs_ae.Trace.{TraceInfo, TraceReplayHint}
use gogeta_fs_ae.Container.{TraceContainer}
use gogeta_fs_ae.Container.Contents.{Contains}
use gogeta_fs_ae.Gather.Groups.{group}
use gogeta_fs_ae.Worker.Spec.{AllPlayable}
use gogeta_fs_ae.Assign.Shares.Groups.{AllContain}
use gogeta_fs_ae.Assign.Sectors.{groups}
use gogeta_fs_ae.Assign.Params.{shares_of}
use gogeta_fs_ae.Assign.Params.Replayed.{share_of-empty, share_of-ok, Loaded, total_length}
use gogeta_fs_ae.Assign.Params.Files.{AllPlayable-select}

AllPlayable-append : (l r : List TraceInfo) → AllPlayable l → AllPlayable r → AllPlayable (l ++ r)
AllPlayable-append [] r a b = b
AllPlayable-append (x ∷ l) r a b = (a.0, AllPlayable-append l r a.1 b)

pub AllPlayable-parts :
    (l r : List TraceInfo) → AllPlayable (l ++ r) → AllPlayable l × AllPlayable r
AllPlayable-parts [] r a = (tt, a)
AllPlayable-parts (x ∷ l) r a = let (b, c) = AllPlayable-parts l r a.1 in ((a.0, b), c)

pub AllPlayable-groups :
    (l : List TraceInfo) (es : List (ℕ × ℕ)) → AllPlayable l → AllPlayable (flat (groups l es))
AllPlayable-groups l [] a = tt
AllPlayable-groups l ((k, p) ∷ es) a =
    AllPlayable-append (group k l) (flat (groups l es)) (AllPlayable-select _ l a)
      (AllPlayable-groups l es a)

-- A worker has no trace.
abbrev pub HasIdle : List (List (List TraceInfo)) → Type 0
HasIdle [] = ⊥
HasIdle (gs ∷ gss) = (flat gs ≡ []) ⊎ HasIdle gss

-- The traces of each worker, one sector behind the other.
abbrev pub parts_of : List (List (List TraceInfo)) → List (List TraceInfo)
parts_of = map flat

pub flat-parts : (gss : List (List (List TraceInfo))) → flat (parts_of gss) ≡ flat (flat gss)
flat-parts [] = refl
flat-parts (gs ∷ gss) = ap (λ l. flat gs ++ l) (flat-parts gss) ∙ sym (flat-append gs (flat gss))

pub total_length-parts :
    (max_blks valid_lines : ℕ) (gss : List (List (List TraceInfo)))
    → total_length max_blks valid_lines (parts_of gss) ≡ length (flat (flat gss))
total_length-parts max_blks valid_lines [] = refl
total_length-parts max_blks valid_lines (gs ∷ gss) = omega (
  arith,
  total_length-parts max_blks valid_lines gss,
  ap length (flat-append gs (flat gss)),
  length-append (flat gs) (flat (flat gss)),
)

module _ (max_blks valid_lines : ℕ) (int_size : valid_lines ≤ 2 ^ 30) where
  -- Each worker has a trace, or the loop over the workers reads outside of an array.
  abbrev pub Outcome :
      List TraceReplayHint → List TraceContainer → List (List (List TraceInfo)) → Type 0
  Outcome hints tcs gss =
      (HasIdle gss × (shares_of max_blks valid_lines hints tcs ≡ err out_of_bounds))
      ⊎ Loaded max_blks valid_lines tcs (parts_of gss)

  pub shares_of-Outcome :
      (hints : List TraceReplayHint) (tcs : List TraceContainer)
      (gss : List (List (List TraceInfo)))
      → AllContain tcs gss
      → length hints + length (flat (flat gss)) ≤ valid_lines
      → Outcome hints tcs gss
  unfolding shares_of
  shares_of-Outcome hints [] [] a room = inr tt
  shares_of-Outcome hints [] (gs ∷ gss) a room = absurd a
  shares_of-Outcome hints (tc ∷ tcs) [] a room = absurd a
  shares_of-Outcome hints (tc ∷ tcs) (gs ∷ gss) a room =
      let l = flat gs in
      let parts = length-append l (flat (flat gss)) in
      let same = ap length (flat-append gs (flat gss)) in
      elim (dec_lt 0 (length l)) [
        | yes some_trace ↦
            let int_part : length l < 2 ^ 31 = omega (arith, room, parts, same, int_size) in
            let (share, e, few, prepared) =
              share_of-ok max_blks valid_lines hints tc l a.0 some_trace int_part
                (omega (arith, room, parts, same)) in
            let own = share.scan.hints in
            let behind = length-append hints own in
            elim (shares_of-Outcome (hints ++ own) tcs gss a.1
              (omega (arith, room, parts, same, few, behind))) [
                | inl (idle, e') ↦ inl (inr idle, >>=-ok _ e ∙ >>=-err _ e')
                | inr loaded ↦ inr (a.0, some_trace, int_part, loaded)
              ]
        | no none_there ↦
            let empty = nil_of_length l (omega (arith, none_there)) in
            inl (
              inl empty,
              >>=-err _
                  (share_of-empty max_blks valid_lines hints tc (subst (Contains tc) empty a.0)),
            )
      ]
