-- ===== src/Gather/Build.antt =====
-- The loop of build_trace_containers keeps the containers in step with the traces that it has seen.
use gogeta_fs_ae.Common.{
  ℕ, ◌+◌, ◌≤◌, ◌<◌, ◌^◌, ◌≡◌, ◌≢◌, ◌⊎◌, inl, inr, refl, ap, sym, subst, ◌∙◌, Bool, true, Option,
  none, some, List, [], ◌∷◌, ◌++◌, ◌==◌, append_assoc, append-nil, length, get_elem?, set, ok,
  ◌>>=◌, >>=-ok, Bool-cases, arith, length-append,
}
use gogeta_fs_ae.Trace.{TraceInfo}
use gogeta_fs_ae.Container.{
  TraceContainer, default_collections_capacity, trace_container_create, trace_container_add,
}
use gogeta_fs_ae.Container.Contents.{Contains, create-Contains, add-Added}
use gogeta_fs_ae.HashMap.{HashMap, lookup}
use gogeta_fs_ae.Gather.{Heap, found, container_for, build_trace_containers}
use gogeta_fs_ae.Gather.Groups.{
  group, Grouped, Complete, group-snoc_ne, found-Slot, lookup-snoc_self, lookup-snoc_none,
  Grouped-new,
}

Option-cases {ℓ} : {A : Type ℓ} (o : Option A) → (o ≡ none) ⊎ ((a : A) × (o ≡ some a))
Option-cases none = inl refl
Option-cases (some a) = inr (a, refl)

length-group : (k : ℕ) (l : List TraceInfo) → length (group k l) ≤ length l
length-group k [] = omega arith
length-group k (x ∷ l) = elim (Bool-cases (x.lba == k)) [
  | inl e ↦ ground (arith, length-group k l)
  | inr e ↦ ground (arith, length-group k l)
]

module _ (realloc : ℕ → Bool) (mem : (bytes : ℕ) → realloc bytes ≡ true) (hm : HashMap) where
  open hm use {Map, entries, hashmap_get, hashmap_set, get-lookup, entries-set}

  -- The containers in the heap are those of the map, and they hold the traces `l`.
  pub record Gathered (map : Map) (heap : Heap) (l : List TraceInfo) : Type 0 where
    pub grouped : Grouped 0 (entries map) heap l
    pub complete : Complete (entries map) l

  -- One round: its container, the container with the trace, and the map and the heap after it.
  record Round (map : Map) (heap : Heap) (l : List TraceInfo) (x : TraceInfo) : Type 0 where
    map' : Map
    heap' : Heap
    ptc : ℕ
    tc : TraceContainer
    tc' : TraceContainer
    place : container_for realloc hm map heap x ≡ (map', heap', ptc)
    at : found (get_elem? heap' ptc) ≡ ok tc
    added : trace_container_add realloc tc x ≡ ok tc'
    after : Gathered map' (set heap' ptc (some tc')) (l ++ x ∷ [])

  -- The round once `map'` has an entry of the trace's sector.
  add-Round :
      (map map' : Map) (heap heap' : Heap) (l : List TraceInfo) (x : TraceInfo) (p : ℕ)
      → container_for realloc hm map heap x ≡ (map', heap', p)
      → lookup x.lba (entries map') ≡ some p
      → Grouped 0 (entries map') heap' l
      → ((k : ℕ) → lookup k (entries map') ≡ none → (group k l ≡ []) × (x.lba ≢ k))
      → length l < 2 ^ 30
      → Round map heap l x
  add-Round map map' heap heap' l x p place look g rest small =
      let (q, e, s) = found-Slot 0 (entries map') heap' l x p look g in
      let (tc', e', c) =
        add-Added realloc mem s.tc x (group x.lba l) s.holds
          (omega (arith, length-group x.lba l)) in
      let same : p ≡ q = omega (arith, e) in
      record {
        map' = map';
        heap' = heap';
        ptc = p;
        tc = s.tc;
        tc' = tc';
        place = place;
        at = ap (λ j. found (get_elem? heap' j)) same ∙ s.at;
        added = e';
        after = record {
          grouped =
              subst (λ j. Grouped 0 (entries map') (set heap' j (some tc')) (l ++ x ∷ []))
                (sym same) (s.after tc' c);
          complete = λ k none_at. group-snoc_ne k l x (rest k none_at).1 ∙ (rest k none_at).0;
        };
      }

  container_for-known :
      (map : Map) (heap : Heap) (x : TraceInfo) (p : ℕ)
      → hashmap_get map x.lba ≡ some p
      → container_for realloc hm map heap x ≡ (map, heap, p)
  unfolding container_for
  container_for-known map heap x p h = rw (container_for, h)

  container_for-new :
      (map : Map) (heap : Heap) (x : TraceInfo)
      → hashmap_get map x.lba ≡ none
      → container_for realloc hm map heap x ≡ (
        hashmap_set map x.lba (length heap),
        heap ++ some (trace_container_create default_collections_capacity x.lba) ∷ [],
        length heap,
      )
  unfolding container_for
  container_for-new map heap x h = rw (container_for, h)

  none-ne-some : {p : ℕ} → ◌≡◌ {A = Option ℕ} none (some p) → ⊥
  none-ne-some e = cc

  container_for-Round :
      (map : Map) (heap : Heap) (l : List TraceInfo) (x : TraceInfo)
      → Gathered map heap l
      → length l < 2 ^ 30
      → Round map heap l x
  container_for-Round map heap l x g small = elim (Option-cases (lookup x.lba (entries map))) [
    | inr (p, e) ↦
        add-Round map map heap heap l x p
          (container_for-known map heap x p (get-lookup map x.lba ∙ e)) e g.grouped
          (λ k none_at. (
            g.complete k none_at,
            λ same.
                absurd
                  (none-ne-some (sym none_at ∙ ap (λ j. lookup j (entries map)) (sym same) ∙ e)),
          ))
          small
    | inl e ↦
        let p : ℕ = length heap in
        let set_at = entries-set map x.lba p e in
        let new = create-Contains default_collections_capacity x.lba (omega arith) in
        let none_yet : group x.lba l ≡ [] = g.complete x.lba e in
        add-Round map (hashmap_set map x.lba p) heap
          (heap ++ some (trace_container_create default_collections_capacity x.lba) ∷ []) l x p
          (container_for-new map heap x (get-lookup map x.lba ∙ e))
          (ap (lookup x.lba) set_at ∙ lookup-snoc_self x.lba p (entries map) e)
          (subst
            (λ es.
              Grouped 0 es
                (heap ++ some (trace_container_create default_collections_capacity x.lba) ∷ []) l)
            (sym set_at)
            (Grouped-new 0 (entries map) heap l x.lba
              (trace_container_create default_collections_capacity x.lba) p g.grouped e
              (omega arith)
              (subst (Contains (trace_container_create default_collections_capacity x.lba))
                (sym none_yet) new)))
          (λ k none_at.
            let (before, ne) =
              lookup-snoc_none k x.lba p (entries map) (sym (ap (lookup k) set_at) ∙ none_at) in
            (g.complete k before, λ same. ne (sym same)))
          small
  ]

  gather-step :
      (map : Map) (heap : Heap) (l infos : List TraceInfo) (x : TraceInfo)
      → (r : Round map heap l x)
      → build_trace_containers realloc hm map heap (x ∷ infos)
        ≡ build_trace_containers realloc hm r.map' (set r.heap' r.ptc (some r.tc')) infos
  unfolding build_trace_containers
  gather-step map heap l infos x r =
      ap
        (λ t. found (get_elem? t.1 t.2) >>= λ tc. trace_container_add realloc tc x >>= λ tc'.
          build_trace_containers realloc hm t.0 (set t.1 t.2 (some tc')) infos)
        r.place
      ∙ >>=-ok _ r.at
      ∙ >>=-ok _ r.added

  -- From containers that hold `l`, the loop comes to containers that hold `l ++ infos`.
  pub build-Gathered :
      (map : Map) (heap : Heap) (l infos : List TraceInfo)
      → Gathered map heap l
      → length l + length infos ≤ 2 ^ 30
      → (map' : Map) × (heap' : Heap) × (build_trace_containers realloc hm map heap infos
          ≡ ok (map', heap'))
        × Gathered map' heap' (l ++ infos)
  unfolding build_trace_containers
  build-Gathered map heap l [] g small =
      (map, heap, refl, subst (Gathered map heap) (sym (append-nil l)) g)
  build-Gathered map heap l (x ∷ infos) g small =
      let r = container_for-Round map heap l x g (omega arith) in
      let (map', heap', e, g') =
        build-Gathered r.map' (set r.heap' r.ptc (some r.tc')) (l ++ x ∷ []) infos r.after
          (omega (arith, length-append l (x ∷ []))) in
      (
        map',
        heap',
        gather-step map heap l infos x r ∙ e,
        subst (Gathered map' heap') (append_assoc l (x ∷ []) infos) g',
      )

  -- From an empty map the loop succeeds on a trace of at most 2 ^ 30 lines, if realloc always finds
  -- memory. The map then has an entry for each sector of the trace, no two entries share a key or a
  -- container, and the container of an entry holds the traces of its sector in the order of the
  -- trace.
  pub build_trace_containers-Gathered :
      (infos : List TraceInfo)
      → length infos ≤ 2 ^ 30
      → (map : Map) × (heap : Heap) × (build_trace_containers realloc hm hm.hashmap_create [] infos
          ≡ ok (map, heap))
        × Gathered map heap infos
  build_trace_containers-Gathered infos small =
      build-Gathered hm.hashmap_create [] [] infos start (omega arith)
    where
      start : Gathered hm.hashmap_create [] []
      start = record {
        grouped = subst (λ es. Grouped 0 es [] []) (sym hm.entries-create) tt;
        complete = λ k none_at. refl;
      }
