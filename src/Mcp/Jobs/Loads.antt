-- ===== src/Mcp/Jobs/Loads.antt =====
-- The queue of the loads: what taking out the least leaves.
use gogeta_fs_ae.Common.{
  ℕ, ◌≤◌, ◌≡◌, ◌≢◌, ◌⊎◌, inl, inr, refl, ap, sym, ◌∙◌, false, some, List, [], ◌∷◌, if◌then◌else◌,
  Bool-cases, All, All-map, arith,
}
use gogeta_fs_ae.Mcp.Jobs.{Load, less, pop_least}

-- `rest` is `q` without one `x`.
pub data Without {ℓ} {A : Type ℓ} (x : A) : List A → List A → Type ℓ where
  here : (q : List A) → Without x (x ∷ q) q
  there : (y : A) {q rest : List A} → Without x q rest → Without x (y ∷ q) (y ∷ rest)

pub All-Without {ℓ κ} :
    {A : Type ℓ} (P : A → Type κ) {x : A} {q rest : List A}
    → Without x q rest
    → All P q
    → P x × All P rest
All-Without P (here q) a = a
All-Without P (there y w) a = let (p, r) = All-Without P w a.1 in (p, (a.0, r))

-- The threads of the loads.
abbrev pub NotBusy : ℕ → List Load → Type 0
NotBusy i = All (λ y. i ≢ y.1)

abbrev pub Distinct : List Load → Type 0
Distinct [] = Unit
Distinct (x ∷ q) = NotBusy x.1 q × Distinct q

abbrev pub Occurs : ℕ → List Load → Type 0
Occurs i [] = ⊥
Occurs i (x ∷ q) = (i ≡ x.1) ⊎ Occurs i q

pub Distinct-Without :
    {x : Load} {q rest : List Load}
    → Without x q rest
    → Distinct q
    → NotBusy x.1 rest × Distinct rest
Distinct-Without (here q) d = d
Distinct-Without (there y w) d =
    let (new, r) = Distinct-Without w d.1 in
    let (other, new_y) = All-Without (λ z. y.1 ≢ z.1) w d.0 in
    (((λ e. other (sym e)), new), (new_y, r))

pub Occurs-Without :
    {x : Load} {q rest : List Load} (i : ℕ)
    → Without x q rest
    → Occurs i q
    → (i ≡ x.1) ⊎ Occurs i rest
Occurs-Without i (here q) o = o
Occurs-Without i (there y w) (inl e) = inr (inl e)
Occurs-Without i (there y w) (inr o) = elim (Occurs-Without i w o) [
  | inl e ↦ inl e
  | inr r ↦ inr (inr r)
]

-- The least load, and the others.
pub record Least (q : List Load) : Type 0 where
  pub least : Load
  pub rest : List Load
  pub popped : pop_least q ≡ some (least, rest)
  pub without : Without least q rest
  pub smallest : All (λ y. least.0 ≤ y.0) q

pop_least-some :
    (x : Load) (q : List Load) (y : Load) (rest : List Load)
    → pop_least q ≡ some (y, rest)
    → pop_least (x ∷ q) ≡ (if less y x then some (y, x ∷ rest) else some (x, q))
unfolding pop_least
pop_least-some x q y rest e = rw (pop_least, e)

pub pop_least-Least : (x : Load) (q : List Load) → Least (x ∷ q)
unfolding pop_least less
pop_least-Least x [] = record {
  least = x;
  rest = [];
  popped = refl;
  without = here [];
  smallest = (omega arith, tt);
}
pop_least-Least x (z ∷ q) =
    let l = pop_least-Least z q in
    let step = pop_least-some x (z ∷ q) l.least l.rest l.popped in
    elim (Bool-cases (less l.least x)) [
      | inl lt ↦ record {
        least = l.least;
        rest = x ∷ l.rest;
        popped = step ∙ ap (λ b. if b then some (l.least, x ∷ l.rest) else some (x, z ∷ q)) lt;
        without = there x l.without;
        smallest = (ground arith, l.smallest);
      }
      | inr ge ↦ record {
        least = x;
        rest = z ∷ q;
        popped = step ∙ ap (λ b. if b then some (l.least, x ∷ l.rest) else some (x, z ∷ q)) ge;
        without = here (z ∷ q);
        smallest = (
          omega arith,
          All-map (z ∷ q) (λ (y : Load) (h : l.least.0 ≤ y.0). le-trans x l.least y ge h)
              l.smallest,
        );
      }
    ]
  where
    le-trans : (x y z : Load) → less y x ≡ false → y.0 ≤ z.0 → x.0 ≤ z.0
    le-trans x y z h k = ground arith
