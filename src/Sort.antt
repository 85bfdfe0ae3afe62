-- ===== src/Sort.antt =====
-- nvm_tools-J/helper/replay.c: the merge sort of a container's traces by time stamp
-- (_merge_array_by_ts, _trace_infomap_msort_by_ts, trace_container_sort_infomap_by_ts).
-- `temp` is the list of the `k` elements written so far; `space` is what was allocated for it.
-- The fuel of a loop is one more than its rounds; 65 levels are enough for every range of indices.
pub mod Merge
pub mod Stable
pub mod Whole
use gogeta_fs_ae.Common.{
  ℕ, zero, suc, ◌+◌, ◌-◌, ◌/◌, ◌%◌, ◌^◌, true, false, ◌&&◌, List, [], ◌∷◌, ◌++◌, leb, ltb, length,
  get_elem?, set, Result, ok, err, out_of_bounds, out_of_fuel, ◌>>=◌, read, if◌then◌else◌,
}
use gogeta_fs_ae.Trace.{TraceInfo}

-- `infos_map[p] = x`
pub write_at : List TraceInfo → ℕ → TraceInfo → Result (List TraceInfo)
write_at infos p x = if ltb p (length infos) then ok (set infos p x) else err out_of_bounds

-- `temp[k++] = x`
pub push_temp : ℕ → List TraceInfo → TraceInfo → Result (List TraceInfo)
push_temp space temp x = if ltb (length temp) space then ok (temp ++ x ∷ []) else err out_of_bounds

-- `while(i <= j && m <= n)`: the indices at its end, and `temp`.
pub merge_both :
    ℕ → List TraceInfo → (i j m n space : ℕ) → List TraceInfo → Result (ℕ × ℕ × List TraceInfo)
unfolding push_temp
merge_both zero infos i j m n space temp = err out_of_fuel
merge_both (suc f) infos i j m n space temp = elim (leb i j && leb m n) [
  | false ↦ ok (i, m, temp)
  | true ↦ do
    a ← read (get_elem? infos i)
    b ← read (get_elem? infos m)
    elim (leb a.ts b.ts) [
      | true ↦ push_temp space temp a >>= λ t. merge_both f infos (suc i) j m n space t
      | false ↦ push_temp space temp b >>= λ t. merge_both f infos i j (suc m) n space t
    ]
]

-- `while(i <= j) temp[k++] = infos_map[i++];`
pub drain : ℕ → List TraceInfo → (i j space : ℕ) → List TraceInfo → Result (List TraceInfo)
unfolding push_temp
drain zero infos i j space temp = err out_of_fuel
drain (suc f) infos i j space temp = elim (leb i j) [
  | false ↦ ok temp
  | true ↦ do
    a ← read (get_elem? infos i)
    t ← push_temp space temp a
    drain f infos (suc i) j space t
]

-- `for(i = 0; i < k; i++) infos_map[begin + i] = temp[i];`
pub copy_back : List TraceInfo → ℕ → List TraceInfo → Result (List TraceInfo)
unfolding write_at
copy_back infos p [] = ok infos
copy_back infos p (x ∷ temp) = do infos' ← write_at infos p x; copy_back infos' (suc p) temp

-- The three loops that fill `temp`; `g` is the fuel of the second and the third.
pub merge_from :
    (f g : ℕ) → List TraceInfo → (i j m n space : ℕ) → List TraceInfo → Result (List TraceInfo)
unfolding merge_both drain
merge_from f g infos i j m n space temp = do
  (i', m', t) ← merge_both f infos i j m n space temp
  t' ← drain g infos i' j space t
  drain g infos m' n space t'

pub merge_array_by_ts : List TraceInfo → (begin mid end space : ℕ) → Result (List TraceInfo)
unfolding merge_from copy_back
merge_array_by_ts infos begin mid end space =
    let rounds = end + 2 - begin in
    do
      temp ← merge_from rounds rounds infos begin mid (suc mid) end space []
      copy_back infos begin temp

pub msort_by_ts : ℕ → List TraceInfo → (begin end space : ℕ) → Result (List TraceInfo)
unfolding merge_array_by_ts
msort_by_ts zero infos begin end space = err out_of_fuel
msort_by_ts (suc f) infos begin end space = elim (ltb begin end) [
  | false ↦ ok infos
  | true ↦
      let mid : ℕ = (begin + end) % 2 ^ 64 / 2 in
      do
        left ← msort_by_ts f infos begin mid space
        both ← msort_by_ts f left (suc mid) end space
        merge_array_by_ts both begin mid end space
]

-- `tc->size - 1` is converted to unsigned long: an empty container gives `2 ^ 64 - 1`.
unfoldable pub sort_infomap_by_ts : List TraceInfo → Result (List TraceInfo)
unfolding msort_by_ts
sort_infomap_by_ts infos =
    msort_by_ts 65 infos 0 ((2 ^ 64 + length infos - 1) % 2 ^ 64) (length infos)
