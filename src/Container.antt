-- ===== src/Container.antt =====
-- nvm_tools-J/helper/replay.c: struct trace_container and trace_container_create, _add and
-- _add_collection. `infos_map` has `capacity` cells; `none` is a cell that was never written.
-- realloc is a parameter: whether it finds the number of bytes that it is asked for.
pub mod Contents
use gogeta_fs_ae.Common.{
  ℕ, zero, suc, ◌+◌, ◌-◌, ◌*◌, ◌^◌, Bool, true, false, Option, none, some, List, [], ◌∷◌, ◌++◌, ltb,
  ◌==◌, length, get_elem?, set, take, replicate, Result, ok, err, out_of_bounds, int_overflow,
  exited, ◌>>=◌, ◌>>◌, read, if◌then◌else◌,
}
use gogeta_fs_ae.Trace.{TraceInfo}

pub record TraceContainer : Type 0 where
  pub infos_map : List (Option TraceInfo)
  -- the key's address: the lba of the group, or the worker
  pub meta : ℕ
  pub size : ℕ
  pub capacity : ℕ

abbrev pub default_collections_capacity : ℕ
default_collections_capacity = 64

unfoldable pub trace_container_create : ℕ → ℕ → TraceContainer
trace_container_create capacity meta = record {
  infos_map = replicate capacity none;
  meta = meta;
  size = 0;
  capacity = capacity;
}

-- `tc->infos_map[tc->size++] = info`
pub append_info : TraceContainer → TraceInfo → Result TraceContainer
append_info tc info =
    if ltb tc.size (length tc.infos_map)
    then ok (record tc { infos_map = set tc.infos_map tc.size (some info); size = suc tc.size })
    else err out_of_bounds

-- A read of a cell below `size`; a cell that was never written holds no pointer.
abbrev pub info_at : TraceContainer → ℕ → Result TraceInfo
info_at tc i = read (get_elem? tc.infos_map i) >>= read

module _ (realloc : ℕ → Bool) where
  -- `tc->capacity *= 2` is an int, and the pointers have 8 bytes.
  pub grow : TraceContainer → Result TraceContainer
  grow tc =
      let capacity : ℕ = tc.capacity * 2 in
      if ltb capacity (2 ^ 31)
      then (if realloc (8 * capacity)
          then ok (record tc {
            infos_map = tc.infos_map ++ replicate (capacity - tc.capacity) none;
            capacity = capacity;
          })
          else err (exited 1))
      else err int_overflow

  unfoldable pub trace_container_add : TraceContainer → TraceInfo → Result TraceContainer
  unfolding grow append_info
  trace_container_add tc info = do
    tc' ← if tc.size == tc.capacity then grow tc else ok tc
    append_info tc' info

  -- `for (int i = 0; i < tc2->size; i++)`, from index `i` with `n` rounds left.
  pub add_from : (n i : ℕ) → TraceContainer → TraceContainer → Result TraceContainer
  add_from zero i tc tc2 = ok tc
  add_from (suc n) i tc tc2 = do
    info ← info_at tc2 i
    tc' ← trace_container_add tc info
    add_from n (suc i) tc' tc2

  unfoldable pub trace_container_add_collection :
      TraceContainer → TraceContainer → Result TraceContainer
  unfolding add_from
  trace_container_add_collection tc tc2 = add_from tc2.size 0 tc tc2
