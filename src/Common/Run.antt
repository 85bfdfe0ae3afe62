-- ===== src/Common/Run.antt =====
-- A run of C code: it returns a value, or it ends in one of the ways listed here.
use Prim.Native.Nat.{ℕ}
use mathlib.Core.Path.{◌≡◌, refl, ap}
use mathlib.Core.Option.{Option, none, some}

-- `exited` is a call of exit, and `out_of_fuel` is the model's own: the loop had not ended with its
-- fuel. The others are undefined behaviour in C (`dangling` is the use of freed memory).
pub data Error : Type 0 where
  out_of_fuel dangling int_overflow div_by_zero out_of_bounds : Error
  exited : (status : ℕ) → Error

pub data Result {ℓ} (R : Type ℓ) : Type ℓ where
  err : (why : Error) → Result R
  ok : (value : R) → Result R

-- A read through an index or a pointer: `none` is a read outside the object.
abbrev pub read {ℓ} : {R : Type ℓ} → Option R → Result R
read (some value) = ok value
read none = err out_of_bounds

infixl 5 ◌>>=◌
abbrev pub ◌>>=◌ {ℓ₁ ℓ₂} :
    {R : Type ℓ₁} {S : Type ℓ₂} (m : Result R) (next : R → Result S) → Result S
err why >>= next = err why
ok value >>= next = next value

-- A step that succeeds, and then the rest.
pub >>=-ok {ℓ₁ ℓ₂} :
    {R : Type ℓ₁} {S : Type ℓ₂} {m : Result R} {value : R} (next : R → Result S)
    → m ≡ ok value
    → (m >>= next) ≡ next value
>>=-ok next e = ap (λ r. r >>= next) e

-- A step that ends the run.
pub >>=-err {ℓ₁ ℓ₂} :
    {R : Type ℓ₁} {S : Type ℓ₂} {m : Result R} {why : Error} (next : R → Result S)
    → m ≡ err why
    → (m >>= next) ≡ err why
>>=-err next e = ap (λ r. r >>= next) e

infixl 5 ◌>>◌
abbrev pub ◌>>◌ {ℓ} : {R : Type ℓ} → Result (Unit {0}) → Result R → Result R
first >> rest = first >>= λ done. rest

-- The other way round: the step of a run that succeeded.
pub >>=-eq-ok {ℓ₁ ℓ₂} :
    {R : Type ℓ₁} {S : Type ℓ₂} (m : Result R) (next : R → Result S) {end : S}
    → (m >>= next) ≡ ok end
    → (value : R) × (next value ≡ ok end) × (m ≡ ok value)
>>=-eq-ok (ok value) next h = (value, h, refl)
>>=-eq-ok (err why) next h = cc

-- A step behind each of two others.
pub >>=-each {ℓ₁ ℓ₂ ℓ₃} :
    {R : Type ℓ₁} {S : Type ℓ₂} {T : Type ℓ₃} (m : Result R) (f : R → Result T) (g : R → Result S)
    (h : S → Result T)
    → ((value : R) → f value ≡ (g value >>= h))
    → (m >>= f) ≡ (m >>= g >>= h)
>>=-each (err why) f g h e = refl
>>=-each (ok value) f g h e = e value
