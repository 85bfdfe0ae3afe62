-- ===== src/Sort/Stable.antt =====
-- Ascending time stamps and stability: what the merge of two sorted lists keeps.
use gogeta_fs_ae.Common.{
  ℕ, ◌≤◌, ◌<◌, ◌≡◌, refl, sym, Bool, List, [], ◌∷◌, ◌++◌, arith, ◌==◌, append-nil, select,
}
use gogeta_fs_ae.Trace.{TraceInfo}
use gogeta_fs_ae.Sort.Merge.{merge_by_ts}

abbrev pub AtLeast : ℕ → List TraceInfo → Type 0
AtLeast t [] = Unit
AtLeast t (x ∷ l) = (t ≤ x.ts) × AtLeast t l

abbrev pub IsSorted : List TraceInfo → Type 0
IsSorted [] = Unit
IsSorted (x ∷ l) = AtLeast x.ts l × IsSorted l

abbrev pub has_ts : ℕ → TraceInfo → Bool
has_ts t x = x.ts == t

-- The traces of every time stamp are the same, in the same order.
abbrev pub SameRuns : List TraceInfo → List TraceInfo → Type 0
SameRuns l l' = (t : ℕ) → select (has_ts t) l' ≡ select (has_ts t) l

AtLeast-le : (t u : ℕ) (l : List TraceInfo) → t ≤ u → AtLeast u l → AtLeast t l
AtLeast-le t u [] le h = tt
AtLeast-le t u (x ∷ l) le h = (omega arith, AtLeast-le t u l le h.1)

select-AtLeast : (t u : ℕ) (l : List TraceInfo) → t < u → AtLeast u l → select (has_ts t) l ≡ []
select-AtLeast t u [] lt h = refl
select-AtLeast t u (x ∷ l) lt h = ground (arith, h.0, select-AtLeast t u l lt h.1)

AtLeast-merge_by_ts :
    (t : ℕ) (l r : List TraceInfo) → AtLeast t l → AtLeast t r → AtLeast t (merge_by_ts l r)
unfolding merge_by_ts
AtLeast-merge_by_ts t [] r hl hr = hr
AtLeast-merge_by_ts t (x ∷ l) [] hl hr = hl
AtLeast-merge_by_ts t (x ∷ l) (y ∷ r) hl hr =
    ground (arith, AtLeast-merge_by_ts t l (y ∷ r) hl.1 hr, AtLeast-merge_by_ts t (x ∷ l) r hl hr.1)

pub merge_by_ts-IsSorted :
    (l r : List TraceInfo) → IsSorted l → IsSorted r → IsSorted (merge_by_ts l r)
unfolding merge_by_ts
merge_by_ts-IsSorted [] r hl hr = hr
merge_by_ts-IsSorted (x ∷ l) [] hl hr = hl
merge_by_ts-IsSorted (x ∷ l) (y ∷ r) hl hr = ground (
  arith,
  merge_by_ts-IsSorted l (y ∷ r) hl.1 hr,
  merge_by_ts-IsSorted (x ∷ l) r hl hr.1,
  AtLeast-merge_by_ts x.ts l (y ∷ r) hl.0,
  AtLeast-merge_by_ts y.ts (x ∷ l) r,
  AtLeast-le x.ts y.ts r,
  AtLeast-le y.ts x.ts l,
)

-- At a tie the left list's traces stay in front.
pub select-merge_by_ts :
    (t : ℕ) (l r : List TraceInfo)
    → IsSorted l
    → select (has_ts t) (merge_by_ts l r) ≡ select (has_ts t) l ++ select (has_ts t) r
unfolding merge_by_ts
select-merge_by_ts t [] r hl = refl
select-merge_by_ts t (x ∷ l) [] hl = sym (append-nil (select (has_ts t) (x ∷ l)))
select-merge_by_ts t (x ∷ l) (y ∷ r) hl = ground (
  arith,
  hl.0,
  select-merge_by_ts t l (y ∷ r) hl.1,
  select-merge_by_ts t (x ∷ l) r hl,
  select-AtLeast t x.ts l,
)
