-- ===== src/Gather.antt =====
-- nvm_tools-J/helper/replay.c: build_trace_containers, which gathers the traces of one sector in one
-- container. `heap` holds the containers that were allocated: a pointer is an index into it, and
-- `none` stands for a container that was freed.
pub mod Groups
pub mod Build
use gogeta_fs_ae.Common.{
  ℕ, zero, suc, Bool, Option, none, some, List, [], ◌∷◌, ◌++◌, length, get_elem?, set, Result, ok,
  err, out_of_bounds, dangling, ◌>>=◌,
}
use gogeta_fs_ae.Trace.{TraceInfo}
use gogeta_fs_ae.Container.{
  TraceContainer, default_collections_capacity, trace_container_create, trace_container_add,
}
use gogeta_fs_ae.HashMap.{HashMap}

abbrev pub Heap : Type 0
Heap = List (Option TraceContainer)

-- The container behind a pointer.
abbrev pub found : Option (Option TraceContainer) → Result TraceContainer
found none = err out_of_bounds
found (some none) = err dangling
found (some (some tc)) = ok tc

module _ (realloc : ℕ → Bool) (hm : HashMap) where
  open hm use {Map, hashmap_get, hashmap_set}

  -- `if (!not_null) { ptc = trace_container_create(...); hashmap_set(...); }`: the map, the heap and `ptc`.
  unfoldable pub container_for : Map → Heap → TraceInfo → Map × Heap × ℕ
  container_for map heap info = elim (hashmap_get map info.lba) [
    | some ptc ↦ (map, heap, ptc)
    | none ↦ (
      hashmap_set map info.lba (length heap),
      heap ++ some (trace_container_create default_collections_capacity info.lba) ∷ [],
      length heap,
    )
  ]

  unfoldable pub build_trace_containers : Map → Heap → List TraceInfo → Result (Map × Heap)
  build_trace_containers map heap [] = ok (map, heap)
  build_trace_containers map heap (info ∷ infos) =
      let (map', heap', ptc) = container_for map heap info in
      found (get_elem? heap' ptc) >>= λ tc. trace_container_add realloc tc info >>= λ tc'.
      build_trace_containers map' (set heap' ptc (some tc')) infos
