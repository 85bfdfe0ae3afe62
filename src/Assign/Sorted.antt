-- ===== src/Assign/Sorted.antt =====
-- nvm_tools-J/helper/replay.c: the map is sorted by sector, and its containers are handed out in this
-- order; together with build_trace_containers before it, what becomes of a trace's sectors.
use gogeta_fs_ae.Common.{
  flat, ℕ, suc, ◌+◌, ◌≤◌, ◌^◌, ◌≡◌, ◌≢◌, ap, inl, inr, refl, sym, subst, ◌∙◌, Bool, true, none,
  some, List, [], ◌∷◌, ◌++◌, ◌==◌, length, length-append, Result, ok, Bool-cases, arith,
}
use gogeta_fs_ae.Trace.{TraceInfo}
use gogeta_fs_ae.HashMap.{HashMap, lookup, Reordered, same, exchange}
use gogeta_fs_ae.Gather.{Heap, build_trace_containers}
use gogeta_fs_ae.Gather.Groups.{group, Grouped, Complete}
use gogeta_fs_ae.Gather.Build.{build_trace_containers-Gathered}
use gogeta_fs_ae.Order.{trace_container_cmp}
use gogeta_fs_ae.Assign.Shares.{Shares, share_containers}
use gogeta_fs_ae.Assign.Shares.Groups.{AllContain}
use gogeta_fs_ae.Assign.Shares.Whole.{share_containers-AllContain}
use gogeta_fs_ae.Assign.Sectors.{values, groups, Owned-Reordered, Grouped-Owned}

-- The number of traces in the groups of the entries.
abbrev total : List TraceInfo → List (ℕ × ℕ) → ℕ
total l [] = 0
total l ((k, p) ∷ es) = length (group k l) + total l es

length-flat_groups :
    (l : List TraceInfo) (es : List (ℕ × ℕ)) → length (flat (groups l es)) ≡ total l es
length-flat_groups l [] = refl
length-flat_groups l ((k, p) ∷ es) =
    omega (arith, length-append (group k l) (flat (groups l es)), length-flat_groups l es)

-- No sector has two entries.
abbrev pub Distinct : List (ℕ × ℕ) → Type 0
Distinct [] = Unit
Distinct ((k, p) ∷ es) = (lookup k es ≡ none) × Distinct es

Grouped-Distinct :
    (i : ℕ) (es : List (ℕ × ℕ)) (heap : Heap) (l : List TraceInfo)
    → Grouped i es heap l
    → Distinct es
Grouped-Distinct i [] heap l g = tt
Grouped-Distinct i ((k, p) ∷ es) [] l g = absurd g
Grouped-Distinct i ((k, p) ∷ es) (none ∷ heap) l g = absurd g
Grouped-Distinct i ((k, p) ∷ es) (some tc ∷ heap) l g =
    (g.1, Grouped-Distinct (suc i) es heap l g.3)

lookup-exchange :
    (k : ℕ) (pre : List (ℕ × ℕ)) (x y : ℕ × ℕ) (post : List (ℕ × ℕ))
    → lookup k (pre ++ (x ∷ y ∷ post)) ≡ none
    → lookup k (pre ++ (y ∷ x ∷ post)) ≡ none
lookup-exchange k [] x y post h = ground (arith, h)
lookup-exchange k ((j, v) ∷ pre) x y post h = elim (Bool-cases (j == k)) [
  | inl e ↦ absurd (ground (arith, h, e))
  | inr e ↦ ground (arith, e, lookup-exchange k pre x y post (ground (arith, h, e)))
]

Distinct-exchange :
    (pre : List (ℕ × ℕ)) (x y : ℕ × ℕ) (post : List (ℕ × ℕ))
    → Distinct (pre ++ (x ∷ y ∷ post))
    → Distinct (pre ++ (y ∷ x ∷ post))
Distinct-exchange [] (j, v) (i, w) post d = elim (Bool-cases (i == j)) [
  | inl e ↦ absurd (ground (arith, d.0, e))
  | inr e ↦ (ground (arith, e, d.1.0), (ground (arith, e, d.0), d.1.1))
]
Distinct-exchange ((k, p) ∷ pre) x y post d =
    (lookup-exchange k pre x y post d.0, Distinct-exchange pre x y post d.1)

-- Sorting keeps the keys.
Distinct-Reordered : {es es' : List (ℕ × ℕ)} → Reordered es es' → Distinct es → Distinct es'
Distinct-Reordered same d = d
Distinct-Reordered (exchange pre x y post r rest) d =
    Distinct-Reordered rest (Distinct-exchange pre x y post d)

Complete-Reordered :
    (l : List TraceInfo) {es es' : List (ℕ × ℕ)} → Reordered es es' → Complete es l → Complete es' l
Complete-Reordered l same all = all
Complete-Reordered l (exchange pre x y post r rest) all =
    Complete-Reordered l rest (λ k h. all k (lookup-exchange k pre y x post h))

-- A trace counts in the group of its sector alone.
total-none :
    (x : TraceInfo) (l : List TraceInfo) (es : List (ℕ × ℕ))
    → lookup x.lba es ≡ none
    → total (x ∷ l) es ≡ total l es
total-none x l [] h = refl
total-none x l ((k, p) ∷ es) h = elim (Bool-cases (x.lba == k)) [
  | inl e ↦ absurd (ground (arith, h, e))
  | inr e ↦ ground (arith, e, total-none x l es (ground (arith, h, e)))
]

total-cons :
    (x : TraceInfo) (l : List TraceInfo) (es : List (ℕ × ℕ))
    → Distinct es
    → total (x ∷ l) es ≤ suc (total l es)
total-cons x l [] d = omega arith
total-cons x l ((k, p) ∷ es) d = elim (Bool-cases (x.lba == k)) [
  | inl e ↦
      let at : k ≡ x.lba = ground arith in
      let rest = total-none x l es (subst (λ j. lookup j es ≡ none) at d.0) in
      ground (arith, e, rest)
  | inr e ↦ ground (arith, e, total-cons x l es d.1)
]

total-le : (l : List TraceInfo) (es : List (ℕ × ℕ)) → Distinct es → total l es ≤ length l
total-le [] es d = omega (arith, nothing es)
  where
    nothing : (es : List (ℕ × ℕ)) → total [] es ≡ 0
    nothing [] = refl
    nothing ((k, p) ∷ es) = omega (arith, nothing es)
total-le (x ∷ l) es d = omega (arith, total-cons x l es d, total-le l es d)

-- A trace whose sector has an entry counts once.
total-found :
    (x : TraceInfo) (l : List TraceInfo) (es : List (ℕ × ℕ))
    → Distinct es
    → lookup x.lba es ≢ none
    → total (x ∷ l) es ≡ suc (total l es)
total-found x l [] d h = absurd (h refl)
total-found x l ((k, p) ∷ es) d h = elim (Bool-cases (x.lba == k)) [
  | inl e ↦
      let at : k ≡ x.lba = ground arith in
      let rest = total-none x l es (subst (λ j. lookup j es ≡ none) at d.0) in
      ground (arith, e, rest)
  | inr e ↦
      let rest = total-found x l es d.1 (λ missing. h (ground (arith, e, missing))) in
      ground (arith, e, rest)
]

Complete-tail :
    (es : List (ℕ × ℕ)) (x : TraceInfo) (l : List TraceInfo) → Complete es (x ∷ l) → Complete es l
Complete-tail es x l all k missing = ground (arith, all k missing)

Complete-head :
    (es : List (ℕ × ℕ)) (x : TraceInfo) (l : List TraceInfo)
    → Complete es (x ∷ l)
    → lookup x.lba es ≢ none
Complete-head es x l all missing = ground (arith, all x.lba missing)

total-Complete :
    (l : List TraceInfo) (es : List (ℕ × ℕ)) → Distinct es → Complete es l → total l es ≡ length l
total-Complete [] es d all = omega (arith, total-le [] es d)
total-Complete (x ∷ l) es d all =
    total-found x l es d (Complete-head es x l all)
    ∙ ap suc (total-Complete l es d (Complete-tail es x l all))

module _ (realloc : ℕ → Bool) (rand : ℕ → ℕ) (hm : HashMap) where
  open hm use {Map, entries, hashmap_sort}

  -- The containers of the sorted map, in its order.
  unfoldable pub sorted_ptcs : Map → List ℕ
  sorted_ptcs map = values (entries (hashmap_sort map trace_container_cmp))

  -- `hashmap_sort(map, trace_container_cmp); foreach_hashmap_bucket(map, b) ...`
  unfoldable pub share_map : (threads valid_lines : ℕ) → Map → Heap → Result Shares
  share_map threads valid_lines map heap =
      share_containers realloc rand threads valid_lines heap (sorted_ptcs map)

  -- The same, and no trace is left out: every sector of the trace is an entry, and none is twice.
  pub share_map-Shared :
      ((bytes : ℕ) → realloc bytes ≡ true)
      → (threads : ℕ) (infos : List TraceInfo) → 1 ≤ threads
      → length infos ≤ 2 ^ 30
      → (map : Map) × (heap : Heap) × (s : Shares) × (shared : List (List (List TraceInfo)))
        × (build_trace_containers realloc hm hm.hashmap_create [] infos ≡ ok (map, heap))
        × (share_map threads (length infos) map heap ≡ ok s)
        × AllContain s.tcs shared
        × (length shared ≡ threads)
        × (flat shared ≡ groups infos (entries (hashmap_sort map trace_container_cmp)))
        × (length (flat (flat shared)) ≡ length infos)
        × Distinct (entries (hashmap_sort map trace_container_cmp))
        × Complete (entries (hashmap_sort map trace_container_cmp)) infos
  unfolding share_map sorted_ptcs
  share_map-Shared mem threads infos some_thread small =
      let (map, heap, e, g) = build_trace_containers-Gathered realloc mem hm infos small in
      let order = hm.entries-sort map trace_container_cmp in
      let es = entries (hashmap_sort map trace_container_cmp) in
      let distinct =
        Distinct-Reordered order (Grouped-Distinct 0 (entries map) heap infos g.grouped) in
      let complete = Complete-Reordered infos order g.complete in
      let fits : length (flat (groups infos es)) ≡ length infos =
        length-flat_groups infos es ∙ total-Complete infos es distinct complete in
      let few : length (flat (groups infos es)) ≤ 2 ^ 30 = omega (arith, fits, small) in
      let owned =
        Owned-Reordered heap infos order (Grouped-Owned [] (entries map) heap infos g.grouped) in
      let (s, shared, e', all, count, together) =
        share_containers-AllContain realloc mem rand threads (length infos) heap (values es)
          (groups infos es) some_thread owned few in
      (
        map,
        heap,
        s,
        shared,
        e,
        e',
        all,
        count,
        together,
        subst (λ gs. length (flat gs) ≡ length infos) (sym together) fits,
        distinct,
        complete,
      )

  -- Gathering a trace of at most 2 ^ 30 lines and handing its sectors out to at least one worker
  -- succeeds, whatever rand returns, if realloc always finds memory. There is one share for each
  -- worker; every share is made of the whole groups of sectors, each the traces of one sector in the
  -- order of the trace, and the shares together are the groups of the sorted map, in its order.
  pub share_map-AllContain :
      ((bytes : ℕ) → realloc bytes ≡ true)
      → (threads : ℕ) (infos : List TraceInfo) → 1 ≤ threads
      → length infos ≤ 2 ^ 30
      → (map : Map) × (heap : Heap) × (s : Shares) × (shared : List (List (List TraceInfo)))
        × (build_trace_containers realloc hm hm.hashmap_create [] infos ≡ ok (map, heap))
        × (share_map threads (length infos) map heap ≡ ok s)
        × AllContain s.tcs shared
        × (length shared ≡ threads)
        × (flat shared ≡ groups infos (entries (hashmap_sort map trace_container_cmp)))
  share_map-AllContain mem threads infos some_thread small =
      let (map, heap, s, shared, e, e', all, count, together, fits, distinct, complete) =
        share_map-Shared mem threads infos some_thread small in
      (map, heap, s, shared, e, e', all, count, together)
