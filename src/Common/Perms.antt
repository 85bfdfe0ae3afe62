-- ===== src/Common/Perms.antt =====
-- Predicates on the elements of a list, and on its pairs, do not depend on the order.
use mathlib.Core.Path.{sym, subst}
use mathlib.Core.Logic.{∥∥₁_elim}
use mathlib.Core.List.{List, [], ◌∷◌, Perm, Mem, Memᴰ, Pairwise, mem-cons_self, mem-cons_of_mem}
use mathlib.Core.List.Memᴰ.{head, tail}
use mathlib.Core.List.Perm
use gogeta_fs_ae.Common.Nested.{All}

-- `R` holds of every two elements, the earlier one first.
abbrev pub Pairs {ℓ κ} : {A : Type ℓ} → (A → A → Type κ) → List A → Type κ
Pairs R [] = Unit
Pairs R (x ∷ l) = All (R x) l × Pairs R l

All-at {ℓ κ} : {A : Type ℓ} (P : A → Type κ) {a : A} (l : List A) → All P l → Memᴰ a l → P a
All-at P [] all m = elim m [ ]
All-at P (x ∷ l) all (head e) = subst P (sym e) all.0
All-at P (x ∷ l) all (tail m) = All-at P l all.1 m

All-Mem {ℓ κ} :
    {A : Type ℓ} {P : A → Type κ} (prop : (a : A) → IsProp (P a)) (l : List A)
    → All P l
    → (a : A) → Mem a l
    → P a
All-Mem prop l all a m = ∥∥₁_elim m (prop a) (All-at _ l all)

Mem-All {ℓ κ} : {A : Type ℓ} {P : A → Type κ} (l : List A) → ((a : A) → Mem a l → P a) → All P l
Mem-All [] h = tt
Mem-All (x ∷ l) h = (h x mem-cons_self, Mem-All l (λ a m. h a (mem-cons_of_mem x m)))

pub All-Perm {ℓ κ} :
    {A : Type ℓ} {P : A → Type κ} (prop : (a : A) → IsProp (P a)) {l r : List A}
    → Perm l r
    → All P l
    → All P r
All-Perm prop {l} {r} p all =
    Mem-All r (λ a m. All-Mem prop l all a (Perm.subset (Perm.symm p) a m))

module _ {ℓ κ} {A : Type ℓ} {R : A → A → Type κ} (prop : (a b : A) → IsProp (R a b)) where
  Pairs-Pairwise : (l : List A) → Pairs R l → Pairwise R l
  Pairs-Pairwise [] p = Pairwise.nil
  Pairs-Pairwise (x ∷ l) p = Pairwise.cons (All-Mem (prop x) l p.0) (Pairs-Pairwise l p.1)

  Pairwise-Pairs : (l : List A) → Pairwise R l → Pairs R l
  Pairwise-Pairs [] p = tt
  Pairwise-Pairs (x ∷ l) (Pairwise.cons h p) = (Mem-All l h, Pairwise-Pairs l p)

  pub Pairs-Perm :
      (symmetric : (a b : A) → R a b → R b a) {l r : List A} → Perm l r → Pairs R l → Pairs R r
  Pairs-Perm symmetric {l} {r} p pairs =
      Pairwise-Pairs r (Perm.pairwise prop symmetric p (Pairs-Pairwise l pairs))
