-- ===== src/Sort/Merge.antt =====
-- What _merge_array_by_ts leaves in the array: the merge of the two slices, the rest untouched.
use gogeta_fs_ae.Common.{
  ℕ, zero, suc, ◌+◌, ◌-◌, ◌≤◌, ◌<◌, ◌≡◌, refl, ◌∙◌, true, false, List, [], ◌∷◌, ◌++◌, arith, leb,
  length, set, get_elem?, append-nil, append_assoc, length-append, inl, ◌⊎◌, length-set,
  get_elem?-set_self, get_elem?-set_ne, ok,
}
use gogeta_fs_ae.Trace.{TraceInfo}
use gogeta_fs_ae.Sort.{
  write_at, push_temp, merge_both, drain, copy_back, merge_from, merge_array_by_ts,
}
use gogeta_fs_ae.Slice.{Holds}

-- The merge of two lists: the earlier time stamp first, and the left list's at a tie.
unfoldable pub merge_by_ts : List TraceInfo → List TraceInfo → List TraceInfo
merge_by_ts [] r = r
merge_by_ts (x ∷ l) [] = x ∷ l
merge_by_ts (x ∷ l) (y ∷ r) = elim (leb x.ts y.ts) [
  | true ↦ x ∷ merge_by_ts l (y ∷ r)
  | false ↦ y ∷ merge_by_ts (x ∷ l) r
]

pub length-merge_by_ts : (l r : List TraceInfo) → length (merge_by_ts l r) ≡ length l + length r
unfolding merge_by_ts
length-merge_by_ts [] r = omega arith
length-merge_by_ts (x ∷ l) [] = omega arith
length-merge_by_ts (x ∷ l) (y ∷ r) =
    ground (arith, length-merge_by_ts l (y ∷ r), length-merge_by_ts (x ∷ l) r)

push_temp-ok :
    (space : ℕ) (temp : List TraceInfo) (x : TraceInfo)
    → length temp < space
    → push_temp space temp x ≡ ok (temp ++ x ∷ [])
unfolding push_temp
push_temp-ok space temp x h = ground arith

drain-ok :
    (f : ℕ) (infos : List TraceInfo) (i j space : ℕ) (temp l : List TraceInfo)
    → Holds infos i l
    → i + length l ≡ suc j
    → length temp + length l ≤ space
    → length l < f
    → drain f infos i j space temp ≡ ok (temp ++ l)
unfolding drain
drain-ok zero infos i j space temp l h e room fuel = absurd (omega arith)
drain-ok (suc f) infos i j space temp [] h e room fuel = ground (arith, append-nil temp)
drain-ok (suc f) infos i j space temp (x ∷ l) h e room fuel = ground (
  arith,
  h.0,
  push_temp-ok space temp x,
  length-append temp (x ∷ []),
  append_assoc temp (x ∷ []) l,
  drain-ok f infos (suc i) j space (temp ++ x ∷ []) l h.1,
)

-- The loops append the merge of the two slices to `temp`, and `temp` has the room for it.
merge_from-ok :
    (f g : ℕ) (infos : List TraceInfo) (i j m n space : ℕ) (temp l r : List TraceInfo)
    → Holds infos i l
    → Holds infos m r
    → i + length l ≡ suc j
    → m + length r ≡ suc n
    → length temp + length l + length r ≤ space
    → length l + length r < f
    → length l + length r < g
    → merge_from f g infos i j m n space temp ≡ ok (temp ++ merge_by_ts l r)
unfolding merge_from merge_both merge_by_ts
merge_from-ok zero g infos i j m n space temp l r hl hr el er room fuel more = absurd (omega arith)
merge_from-ok (suc f) g infos i j m n space temp [] r hl hr el er room fuel more = ground (
  arith,
  drain-ok g infos i j space temp [] tt,
  append-nil temp,
  drain-ok g infos m n space temp r hr,
)
merge_from-ok (suc f) g infos i j m n space temp (x ∷ l) [] hl hr el er room fuel more = ground (
  arith,
  drain-ok g infos i j space temp (x ∷ l) hl,
  append-nil (temp ++ x ∷ l),
  drain-ok g infos m n space (temp ++ x ∷ l) [] tt,
  length-append temp (x ∷ l),
)
merge_from-ok (suc f) g infos i j m n space temp (x ∷ l) (y ∷ r) hl hr el er room fuel more =
    ground (
      arith,
      hl.0,
      hr.0,
      push_temp-ok space temp x,
      push_temp-ok space temp y,
      length-append temp (x ∷ []),
      length-append temp (y ∷ []),
      append_assoc temp (x ∷ []) (merge_by_ts l (y ∷ r)),
      append_assoc temp (y ∷ []) (merge_by_ts (x ∷ l) r),
      merge_from-ok f g infos (suc i) j m n space (temp ++ x ∷ []) l (y ∷ r) hl.1 hr,
      merge_from-ok f g infos i j (suc m) n space (temp ++ y ∷ []) (x ∷ l) r hl hr.1,
    )

-- The array after the copy: the slice written, all else as before.
pub record Copied (infos : List TraceInfo) (p : ℕ) (l out : List TraceInfo) : Type 0 where
  pub size : length out ≡ length infos
  pub slice : Holds out p l
  pub others : (k : ℕ) → (k < p) ⊎ (p + length l ≤ k) → get_elem? out k ≡ get_elem? infos k

copy_back-ok :
    (infos : List TraceInfo) (p : ℕ) (l : List TraceInfo)
    → p + length l ≤ length infos
    → (out : List TraceInfo) × (copy_back infos p l ≡ ok out) × Copied infos p l out
unfolding copy_back write_at
copy_back-ok infos p [] h = (infos, refl, record { size = refl; slice = tt; others = λ k o. refl })
copy_back-ok infos p (x ∷ l) h =
    let (out, e, c) =
      copy_back-ok (set infos p x) (suc p) l (omega (arith, length-set infos p x)) in
    (
      out,
      ground (arith, e),
      record {
        size = omega (arith, c.size, length-set infos p x);
        slice =
            (c.others p (inl (omega arith)) ∙ get_elem?-set_self infos p x (omega arith), c.slice);
        others = λ k o. c.others k (omega arith) ∙ get_elem?-set_ne infos p k x (omega arith);
      },
    )

-- _merge_array_by_ts succeeds on two adjacent slices and leaves their merge in their place.
pub merge_array_by_ts-ok :
    (infos : List TraceInfo) (begin mid end space : ℕ) (l r : List TraceInfo)
    → Holds infos begin l
    → Holds infos (suc mid) r
    → begin + length l ≡ suc mid
    → suc mid + length r ≡ suc end
    → suc end ≤ length infos
    → length infos ≤ space
    → (out : List TraceInfo) × (merge_array_by_ts infos begin mid end space ≡ ok out)
      × Copied infos begin (merge_by_ts l r) out
unfolding merge_array_by_ts
merge_array_by_ts-ok infos begin mid end space l r hl hr el er inside room =
    let both = length-merge_by_ts l r in
    let (out, e, c) = copy_back-ok infos begin (merge_by_ts l r) (omega (arith, both)) in
    let rounds : ℕ = end + 2 - begin in
    let merged =
      merge_from-ok rounds rounds infos begin mid (suc mid) end space [] l r hl hr el er
        (omega arith) (omega arith) (omega arith) in
    (out, ground (arith, merged, e), c)
