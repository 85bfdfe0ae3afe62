-- ===== src/Common/Family.antt =====
-- Families indexed by numbers: one member replaced, and sums over a range.
use Prim.Native.Nat.{ℕ, zero, suc, ◌+◌, ◌≤◌, ◌<◌}
use mathlib.Core.Path.{◌≡◌, refl, ap, ap₂, sym, subst}
use mathlib.Core.Logic.{◌≢◌, inl, inr}
use mathlib.Core.Bool.{true, false}
use native.Mathlib.Omega.{arith}
use gogeta_fs_ae.Common.Tests.{◌==◌, if◌then◌else◌, Bool-cases}

abbrev pub update {ℓ} : {A : Type ℓ} → (ℕ → A) → ℕ → A → ℕ → A
update f i a k = if k == i then a else f k

pub update-other {ℓ} : {A : Type ℓ} (f : ℕ → A) (i k : ℕ) (a : A) → k ≢ i → update f i a k ≡ f k
update-other f i k a ne =
    let other : (k == i) ≡ false = ground (arith, ne) in ap (λ b. if b then a else f k) other

pub update-same {ℓ} : {A : Type ℓ} (f : ℕ → A) (i : ℕ) (a : A) → update f i a i ≡ a
update-same f i a = let here : (i == i) ≡ true = ground arith in ap (λ b. if b then a else f i) here

pub update-each {ℓ κ} :
    {A : Type ℓ} (P : ℕ → A → Type κ) (f : ℕ → A) (i : ℕ) (a : A)
    → P i a
    → ((j : ℕ) → j ≢ i → P j (f j))
    → (j : ℕ) → P j (update f i a j)
update-each P f i a at others j = elim (Bool-cases (j == i)) [
  | inl e ↦
      subst (λ b. P j (if b then a else f j)) (sym e) (subst (λ k. P k a) (ground (arith, e)) at)
  | inr e ↦
      subst (λ b. P j (if b then a else f j)) (sym e) (others j (λ same. ground (arith, same, e)))
]

pub update-All {ℓ κ} :
    {A : Type ℓ} (P : ℕ → A → Type κ) (f : ℕ → A) (i : ℕ) (a : A)
    → P i a
    → ((j : ℕ) → P j (f j))
    → (j : ℕ) → P j (update f i a j)
update-All P f i a at all = update-each P f i a at (λ j other. all j)

-- The sum of `f` over `n` indices from `i`.
abbrev pub span : (ℕ → ℕ) → (i n : ℕ) → ℕ
span f i zero = 0
span f i (suc n) = f i + span f (suc i) n

pub span-ext :
    (f g : ℕ → ℕ) (i n : ℕ) → ((j : ℕ) → i ≤ j → j < i + n → f j ≡ g j) → span f i n ≡ span g i n
span-ext f g i zero h = refl
span-ext f g i (suc n) h =
    ap₂ ◌+◌ (h i (omega arith) (omega arith))
      (span-ext f g (suc i) n (λ j low high. h j (omega (arith, low)) (omega (arith, high))))

-- One term of the sum is replaced.
pub span-at :
    (f g : ℕ → ℕ) (i from n : ℕ)
    → ((j : ℕ) → (j == i) ≡ false → g j ≡ f j)
    → from ≤ i
    → i < from + n
    → span g from n + f i ≡ span f from n + g i
span-at f g i from zero same low high = absurd (omega (arith, low, high))
span-at f g i from (suc n) same low high = elim (Bool-cases (from == i)) [
  | inl e ↦
      let at : from ≡ i = ground (arith, e) in
      let rest = span-ext g f (suc from) n (λ j above below. same j (ground (arith, at, above))) in
      let here_f = ap f at in let here_g = ap g at in omega (arith, rest, here_f, here_g)
  | inr e ↦
      let rest = span-at f g i (suc from) n same (ground (arith, e, low)) (omega (arith, high)) in
      omega (arith, rest, same from e)
]

-- No term grows.
pub span-le : (f g : ℕ → ℕ) (from n : ℕ) → ((j : ℕ) → f j ≤ g j) → span f from n ≤ span g from n
span-le f g from zero h = omega arith
span-le f g from (suc n) h = omega (arith, h from, span-le f g (suc from) n h)

-- No term grows, and one gets smaller.
pub span-lt :
    (f g : ℕ → ℕ) (i from n : ℕ)
    → ((j : ℕ) → f j ≤ g j)
    → f i < g i
    → from ≤ i
    → i < from + n
    → span f from n < span g from n
span-lt f g i from zero h lt low high = absurd (omega (arith, low, high))
span-lt f g i from (suc n) h lt low high = elim (Bool-cases (from == i)) [
  | inl e ↦
      let at : from ≡ i = ground (arith, e) in
      let here_f = ap f at in
      let here_g = ap g at in omega (arith, lt, here_f, here_g, span-le f g (suc from) n h)
  | inr e ↦ omega (
    arith,
    h from,
    span-lt f g i (suc from) n h lt (ground (arith, e, low)) (omega (arith, high)),
  )
]
