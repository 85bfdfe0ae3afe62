-- ===== src/Sort/Whole.antt =====
-- The recursion of _trace_infomap_msort_by_ts, and the sort of a whole container.
use native.Mathlib.Nat.{pow-suc}
use gogeta_fs_ae.Common.{
  ℕ, zero, suc, ◌+◌, ◌-◌, ◌/◌, ◌%◌, ◌^◌, ◌≤◌, ◌<◌, ◌≡◌, refl, ap₂, sym, ◌∙◌, List, [], ◌∷◌, ◌++◌,
  arith, length, inl, inr, ok, err, out_of_bounds, take, drop, select-append, take-append-drop,
  length-take, length-drop, dec_lt, length-append,
}
use gogeta_fs_ae.Trace.{TraceInfo}
use gogeta_fs_ae.Sort.{merge_array_by_ts, msort_by_ts, sort_infomap_by_ts}
use gogeta_fs_ae.Slice.{Holds, Holds-append, Holds-agree, Holds-self, Holds-eq}
use gogeta_fs_ae.Sort.Merge.{merge_by_ts, length-merge_by_ts, Copied, merge_array_by_ts-ok}
use gogeta_fs_ae.Sort.Stable.{IsSorted, SameRuns, has_ts, merge_by_ts-IsSorted, select-merge_by_ts}

-- `out` is the array with its slice `l` sorted in its place.
pub record SortedSlice (infos : List TraceInfo) (begin : ℕ) (l out : List TraceInfo) : Type 0 where
  pub sorted : List TraceInfo
  pub copied : Copied infos begin sorted out
  pub ascending : IsSorted sorted
  pub same : SameRuns l sorted
  pub count : length sorted ≡ length l

IsSorted-short : (l : List TraceInfo) → length l ≤ 1 → IsSorted l
IsSorted-short [] h = tt
IsSorted-short (x ∷ []) h = (tt, tt)
IsSorted-short (x ∷ y ∷ l) h = absurd (omega arith)

-- Nothing to do: a slice of at most one element.
SortedSlice-short :
    (infos : List TraceInfo) (begin : ℕ) (l : List TraceInfo)
    → Holds infos begin l
    → length l ≤ 1
    → SortedSlice infos begin l infos
SortedSlice-short infos begin l h short = record {
  sorted = l;
  copied = record { size = refl; slice = h; others = λ k o. refl };
  ascending = IsSorted-short l short;
  same = λ t. refl;
  count = refl;
}

-- The left slice sorted, then the right one, then both merged.
module _ (infos out₁ out₂ l r : List TraceInfo) (begin mid : ℕ)
    (left : SortedSlice infos begin l out₁) (right : SortedSlice out₁ (suc mid) r out₂)
    (el : begin + length l ≡ suc mid) where
  Holds-left : Holds out₂ begin left.sorted
  Holds-left =
      Holds-agree out₁ out₂ begin left.sorted
        (λ k p q. right.copied.others k (inl (omega (arith, left.count)))) left.copied.slice

  SortedSlice-merge :
      (out₃ : List TraceInfo)
      → Copied out₂ begin (merge_by_ts left.sorted right.sorted) out₃
      → SortedSlice infos begin (l ++ r) out₃
  SortedSlice-merge out₃ merged = record {
    sorted = merge_by_ts left.sorted right.sorted;
    copied = record {
      size = merged.size ∙ right.copied.size ∙ left.copied.size;
      slice = merged.slice;
      others = λ k o.
          let both = length-merge_by_ts left.sorted right.sorted in
          merged.others k o
          ∙ right.copied.others k (omega (arith, both, left.count, right.count))
          ∙ left.copied.others k (omega (arith, both, left.count, right.count));
    };
    ascending = merge_by_ts-IsSorted left.sorted right.sorted left.ascending right.ascending;
    same = λ t.
        select-merge_by_ts t left.sorted right.sorted left.ascending
        ∙ ap₂ ◌++◌ (left.same t) (right.same t)
        ∙ sym (select-append (has_ts t) l r);
    count = omega (
      arith,
      length-merge_by_ts left.sorted right.sorted,
      left.count,
      right.count,
      length-append l r,
    );
  }

  merge_halves :
      (end space : ℕ)
      → suc mid + length r ≡ suc end
      → suc end ≤ length infos
      → length infos ≤ space
      → (out₃ : List TraceInfo) × (merge_array_by_ts out₂ begin mid end space ≡ ok out₃)
        × SortedSlice infos begin (l ++ r) out₃
  merge_halves end space er inside room =
      let size₁ = left.copied.size in
      let size₂ = right.copied.size in
      let (out₃, e, merged) =
        merge_array_by_ts-ok out₂ begin mid end space left.sorted right.sorted Holds-left
          right.copied.slice (omega (arith, left.count)) (omega (arith, right.count)) (omega arith)
          (omega arith) in
      (out₃, e, SortedSlice-merge out₃ merged)

-- The midpoint of a range, which the sum does not overflow.
midpoint :
    (begin end : ℕ)
    → begin < end
    → end < 2 ^ 63
    → (begin ≤ (begin + end) % 2 ^ 64 / 2) × ((begin + end) % 2 ^ 64 / 2 < end)
midpoint begin end h small = omega arith

abbrev mid_of : ℕ → ℕ → ℕ
mid_of begin end = (begin + end) % 2 ^ 64 / 2

module _ (f : ℕ) (infos : List TraceInfo) (begin end space : ℕ) where
  msort_by_ts-done : end ≤ begin → msort_by_ts (suc f) infos begin end space ≡ ok infos
  unfolding msort_by_ts
  msort_by_ts-done h = ground arith

  msort_by_ts-halves :
      (out₁ out₂ out₃ : List TraceInfo)
      → begin < end
      → msort_by_ts f infos begin (mid_of begin end) space ≡ ok out₁
      → msort_by_ts f out₁ (suc (mid_of begin end)) end space ≡ ok out₂
      → merge_array_by_ts out₂ begin (mid_of begin end) end space ≡ ok out₃
      → msort_by_ts (suc f) infos begin end space ≡ ok out₃
  unfolding msort_by_ts
  msort_by_ts-halves out₁ out₂ out₃ h e₁ e₂ e₃ = ground arith

-- With `f` halvings for the slice's length the sort succeeds, and sorts exactly its slice.
msort_by_ts-ok :
    (f : ℕ) (infos : List TraceInfo) (begin end space : ℕ) (l : List TraceInfo)
    → Holds infos begin l
    → begin + length l ≡ suc end
    → suc end ≤ length infos
    → length infos ≤ space
    → length infos < 2 ^ 63
    → length l ≤ 2 ^ f
    → (out : List TraceInfo) × (msort_by_ts (suc f) infos begin end space ≡ ok out)
      × SortedSlice infos begin l out
msort_by_ts-ok zero infos begin end space l h e inside room small fuel = (
  infos,
  msort_by_ts-done 0 infos begin end space (omega arith),
  SortedSlice-short infos begin l h fuel,
)
msort_by_ts-ok (suc f) infos begin end space l h e inside room small fuel =
    elim (dec_lt begin end) [
      | no done ↦ (
        infos,
        msort_by_ts-done (suc f) infos begin end space (omega arith),
        SortedSlice-short infos begin l h (omega arith),
      )
      | yes more ↦
          let mid : ℕ = mid_of begin end in
          let k : ℕ = suc mid - begin in
          let middle = midpoint begin end more (omega arith) in
          let double = pow-suc 2 f in
          let size_l = length-take k l in
          let size_r = length-drop k l in
          let halves =
            Holds-append infos begin (suc mid) (take k l) (drop k l) (omega arith)
              (rw (take-append-drop k l) h) in
          let (out₁, e₁, left) =
            msort_by_ts-ok f infos begin mid space (take k l) halves.0 (omega arith) (omega arith)
              room small (omega arith) in
          let same_size = left.copied.size in
          let right_slice =
            Holds-agree infos out₁ (suc mid) (drop k l)
              (λ j p q. left.copied.others j (inr (omega (arith, left.count)))) halves.1 in
          let (out₂, e₂, right) =
            msort_by_ts-ok f out₁ (suc mid) end space (drop k l) right_slice (omega arith)
              (omega arith) (omega arith) (omega arith) (omega arith) in
          let (out₃, e₃, both) =
            merge_halves infos out₁ out₂ (take k l) (drop k l) begin mid left right (omega arith)
              end space (omega arith) inside room in
          (
            out₃,
            msort_by_ts-halves (suc f) infos begin end space out₁ out₂ out₃ more e₁ e₂ e₃,
            rw (take-append-drop k l) at both,
          )
    ]

-- The sort of a container that holds a trace succeeds. Its result is in the order of the time
-- stamps, and the traces of each time stamp are those of the container, in their order.
pub sort_infomap_by_ts-sorts :
    (infos : List TraceInfo)
    → 1 ≤ length infos
    → length infos < 2 ^ 31
    → (out : List TraceInfo) × (sort_infomap_by_ts infos ≡ ok out)
      × IsSorted out
      × SameRuns infos out
      × (length out ≡ length infos)
unfolding sort_infomap_by_ts
sort_infomap_by_ts-sorts infos some_trace int_size =
    let size = length infos in
    let last : ℕ = (2 ^ 64 + size - 1) % 2 ^ 64 in
    let (out, e, s) =
      msort_by_ts-ok 64 infos 0 last size infos (Holds-self infos) (omega arith) (omega arith)
        (omega arith) (omega arith) (omega arith) in
    let whole = Holds-eq out s.sorted (s.count ∙ sym s.copied.size) s.copied.slice in
    (out, e, rw whole s.ascending, rw whole s.same, s.copied.size)

-- On an empty container the sort reads outside of the array: `size - 1` wraps to `2 ^ 64 - 1`, and
-- the halving descends to the range from 0 to 1.
pub sort_infomap_by_ts-empty : sort_infomap_by_ts [] ≡ err out_of_bounds
unfolding sort_infomap_by_ts
sort_infomap_by_ts-empty = refl
