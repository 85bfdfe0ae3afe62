-- ===== src/Slice.antt =====
-- Slices of an array: `Holds infos i l` says that `l` stands in `infos` from index `i` on.
use gogeta_fs_ae.Common.{
  ℕ, suc, ◌+◌, ◌≤◌, ◌<◌, ◌≡◌, refl, ◌∙◌, List, [], ◌∷◌, ◌++◌, some, arith, length, set, get_elem?,
  get_elem?-set_ne, last?, ◌-◌, ap, lt_of_get_elem?,
}

module _ {ℓ} {A : Type ℓ} where
  abbrev pub Holds : List A → ℕ → List A → Type ℓ
  Holds infos i [] = Unit
  Holds infos i (x ∷ l) = (get_elem? infos i ≡ some x) × Holds infos (suc i) l

  -- A write before the slice leaves it.
  pub Holds-set_below :
      (infos : List A) (p i : ℕ) (v : A) (l : List A)
      → p < i
      → Holds infos i l
      → Holds (set infos p v) i l
  Holds-set_below infos p i v [] lt h = tt
  Holds-set_below infos p i v (x ∷ l) lt h = (
    get_elem?-set_ne infos p i v (omega arith) ∙ h.0,
    Holds-set_below infos p (suc i) v l (omega arith) h.1,
  )

  -- The whole of an array is the slice from index 0.
  pub Holds-shift :
      (y : A) (infos : List A) (i : ℕ) (l : List A) → Holds infos i l → Holds (y ∷ infos) (suc i) l
  Holds-shift y infos i [] h = tt
  Holds-shift y infos i (x ∷ l) h = (h.0, Holds-shift y infos (suc i) l h.1)

  pub Holds-self : (infos : List A) → Holds infos 0 infos
  Holds-self [] = tt
  Holds-self (x ∷ infos) = (refl, Holds-shift x infos 0 infos (Holds-self infos))

  pub Holds-append :
      (infos : List A) (i k : ℕ) (l r : List A)
      → k ≡ i + length l
      → Holds infos i (l ++ r)
      → Holds infos i l × Holds infos k r
  Holds-append infos i k [] r e h = (tt, rw (k-eq) h)
    where
      k-eq : k ≡ i
      k-eq = omega arith
  Holds-append infos i k (x ∷ l) r e h =
      let rest = Holds-append infos (suc i) k l r (omega arith) h.1 in ((h.0, rest.0), rest.1)

  -- A slice of an array with the same elements there is the same slice.
  pub Holds-agree :
      (infos infos' : List A) (i : ℕ) (l : List A)
      → ((k : ℕ) → i ≤ k → k < i + length l → get_elem? infos' k ≡ get_elem? infos k)
      → Holds infos i l
      → Holds infos' i l
  Holds-agree infos infos' i [] same h = tt
  Holds-agree infos infos' i (x ∷ l) same h = (
    same i (omega arith) (omega arith) ∙ h.0,
    Holds-agree infos infos' (suc i) l (λ k p q. same k (omega arith) (omega arith)) h.1,
  )

  -- A slice ends inside its array.
  pub Holds-le :
      (infos : List A) (i : ℕ) (l : List A)
      → Holds infos i l
      → i ≤ length infos
      → i + length l ≤ length infos
  Holds-le infos i [] h le = omega arith
  Holds-le infos i (x ∷ l) h le =
      let lt = lt_of_get_elem? infos i h.0 in omega (arith, Holds-le infos (suc i) l h.1 lt)

  Holds-unshift :
      (y : A) (infos : List A) (i : ℕ) (l : List A) → Holds (y ∷ infos) (suc i) l → Holds infos i l
  Holds-unshift y infos i [] h = tt
  Holds-unshift y infos i (x ∷ l) h = (h.0, Holds-unshift y infos (suc i) l h.1)

  -- A slice from index 0 as long as its array is the array.
  pub Holds-eq : (infos l : List A) → length l ≡ length infos → Holds infos 0 l → infos ≡ l
  Holds-eq [] [] e h = refl
  Holds-eq [] (x ∷ l) e h = absurd (omega arith)
  Holds-eq (y ∷ infos) [] e h = absurd (omega arith)
  Holds-eq (y ∷ infos) (x ∷ l) e h =
      let tails = Holds-eq infos l (omega arith) (Holds-unshift y infos 0 l h.1) in
      ground (arith, tails, h.0)

  -- A prefix is the slice from index 0.
  pub Holds-prefix : (l spare : List A) → Holds (l ++ spare) 0 l
  Holds-prefix [] spare = tt
  Holds-prefix (x ∷ l) spare = (refl, Holds-shift x (l ++ spare) 0 l (Holds-prefix l spare))

  -- The last element of a slice stands just before its end.
  pub Holds-last :
      (infos : List A) (i : ℕ) (l : List A) {p : A}
      → Holds infos i l
      → last? l ≡ some p
      → get_elem? infos (i + length l - 1) ≡ some p
  Holds-last infos i [] h e = cc
  Holds-last infos i (x ∷ []) h e =
      let here : i + 1 - 1 ≡ i = omega arith in ap (get_elem? infos) here ∙ h.0 ∙ e
  Holds-last infos i (x ∷ y ∷ l) h e =
      let later : i + suc (suc (length l)) - 1 ≡ suc i + suc (length l) - 1 = omega arith in
      ap (get_elem? infos) later ∙ Holds-last infos (suc i) (y ∷ l) h.1 e
