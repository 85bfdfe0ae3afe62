-- ===== src/Common/Nested.antt =====
-- Lists of lists, and predicates that hold of every element.
use mathlib.Core.Path.{◌≡◌, refl, ap, sym, ◌∙◌}
use mathlib.Core.List.{List, [], ◌∷◌, ◌++◌, append_assoc}

abbrev pub flat {ℓ} : {A : Type ℓ} → List (List A) → List A
flat [] = []
flat (l ∷ ls) = l ++ flat ls

pub flat-append {ℓ} : {A : Type ℓ} (ls ms : List (List A)) → flat (ls ++ ms) ≡ flat ls ++ flat ms
flat-append [] ms = refl
flat-append (l ∷ ls) ms =
    ap (λ r. l ++ r) (flat-append ls ms) ∙ sym (append_assoc l (flat ls) (flat ms))

abbrev pub All {ℓ κ} : {A : Type ℓ} → (A → Type κ) → List A → Type κ
All P [] = Unit
All P (x ∷ l) = P x × All P l

pub All-map {ℓ κ λ'} :
    {A : Type ℓ} {P : A → Type κ} {Q : A → Type λ'} (l : List A)
    → ((x : A) → P x → Q x)
    → All P l
    → All Q l
All-map [] f a = tt
All-map (x ∷ l) f a = (f x a.0, All-map l f a.1)

pub All-append {ℓ κ} :
    {A : Type ℓ} (P : A → Type κ) (l r : List A) → All P l → All P r → All P (l ++ r)
All-append P [] r a b = b
All-append P (x ∷ l) r a b = (a.0, All-append P l r a.1 b)
