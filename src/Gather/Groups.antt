-- ===== src/Gather/Groups.antt =====
-- After build_trace_containers every sector of the trace has one container, which holds the traces of
-- that sector in their order.
use gogeta_fs_ae.Common.{
  ℕ, suc, ◌+◌, ◌≡◌, ◌≢◌, ◌⊎◌, refl, ap, sym, subst, ◌∙◌, Bool, true, false, Option, none, some,
  List, [], ◌∷◌, ◌++◌, ◌==◌, append-nil, length, get_elem?, set, select, select-append, ok,
  Bool-cases, arith, ℕ_discrete,
}
use gogeta_fs_ae.Trace.{TraceInfo}
use gogeta_fs_ae.Container.{TraceContainer}
use gogeta_fs_ae.Container.Contents.{Contains}
use gogeta_fs_ae.HashMap.{lookup}
use gogeta_fs_ae.Gather.{Heap, found}

abbrev pub has_lba : ℕ → TraceInfo → Bool
has_lba k x = x.lba == k

-- The traces of one sector.
abbrev pub group : ℕ → List TraceInfo → List TraceInfo
group k l = select (has_lba k) l

-- Entry by entry: the pointers count the containers up from `i`, no key occurs twice, and each
-- container holds its sector's traces of `l`.
abbrev pub Grouped : ℕ → List (ℕ × ℕ) → Heap → List TraceInfo → Type 0
Grouped i [] [] l = Unit
Grouped i [] (c ∷ heap) l = ⊥
Grouped i ((k, p) ∷ es) [] l = ⊥
Grouped i ((k, p) ∷ es) (none ∷ heap) l = ⊥
Grouped i ((k, p) ∷ es) (some tc ∷ heap) l =
    (p ≡ i) × (lookup k es ≡ none) × Contains tc (group k l) × Grouped (suc i) es heap l

-- A sector without an entry has no traces.
abbrev pub Complete : List (ℕ × ℕ) → List TraceInfo → Type 0
Complete es l = (k : ℕ) → lookup k es ≡ none → group k l ≡ []

pub group-snoc_ne :
    (k : ℕ) (l : List TraceInfo) (x : TraceInfo) → x.lba ≢ k → group k (l ++ x ∷ []) ≡ group k l
group-snoc_ne k l x ne =
    select-append (has_lba k) l (x ∷ [])
    ∙ ap (λ r. group k l ++ r) (alone (Bool-cases (x.lba == k)))
    ∙ append-nil (group k l)
  where
    alone : ((x.lba == k) ≡ true) ⊎ ((x.lba == k) ≡ false) → group k (x ∷ []) ≡ []
    alone c = ground arith

group-snoc_self :
    (l : List TraceInfo) (x : TraceInfo) → group x.lba (l ++ x ∷ []) ≡ group x.lba l ++ x ∷ []
group-snoc_self l x = select-append (has_lba x.lba) l (x ∷ []) ∙ ap (λ r. group x.lba l ++ r) alone
  where
    alone : group x.lba (x ∷ []) ≡ x ∷ []
    alone = ground arith

-- A trace of a sector without an entry changes no group.
Grouped-other :
    (i : ℕ) (es : List (ℕ × ℕ)) (heap : Heap) (l : List TraceInfo) (x : TraceInfo)
    → lookup x.lba es ≡ none
    → Grouped i es heap l
    → Grouped i es heap (l ++ x ∷ [])
Grouped-other i [] [] l x new g = tt
Grouped-other i [] (c ∷ heap) l x new g = g
Grouped-other i ((k, p) ∷ es) [] l x new g = g
Grouped-other i ((k, p) ∷ es) (none ∷ heap) l x new g = g
Grouped-other i ((k, p) ∷ es) (some tc ∷ heap) l x new g =
    let ne : x.lba ≢ k = λ e. ground (arith, new, e) in
    (
      g.0,
      g.1,
      subst (Contains tc) (sym (group-snoc_ne k l x ne)) g.2,
      Grouped-other (suc i) es heap l x (ground (arith, new, ne)) g.3,
    )

-- What a lookup finds, and what holds once the trace is added there.
pub record Slot (i : ℕ) (es : List (ℕ × ℕ)) (heap : Heap) (l : List TraceInfo) (x : TraceInfo)
    (p : ℕ) : Type 0 where
  pub tc : TraceContainer
  pub at : found (get_elem? heap p) ≡ ok tc
  pub holds : Contains tc (group x.lba l)
  pub after :
      (tc' : TraceContainer)
      → Contains tc' (group x.lba l ++ x ∷ [])
      → Grouped i es (set heap p (some tc')) (l ++ x ∷ [])

pub found-Slot :
    (i : ℕ) (es : List (ℕ × ℕ)) (heap : Heap) (l : List TraceInfo) (x : TraceInfo) (p : ℕ)
    → lookup x.lba es ≡ some p
    → Grouped i es heap l
    → (q : ℕ) × (p ≡ i + q) × Slot i es heap l x q
found-Slot i [] heap l x p h g = absurd (none-ne-some h)
  where
    none-ne-some : ◌≡◌ {A = Option ℕ} none (some p) → ⊥
    none-ne-some e = cc
found-Slot i ((k, p') ∷ es) [] l x p h g = absurd g
found-Slot i ((k, p') ∷ es) (none ∷ heap) l x p h g = absurd g
found-Slot i ((k, p') ∷ es) (some tc ∷ heap) l x p h g = elim (ℕ_discrete k x.lba) [
  | yes e ↦
      let here : p ≡ i + 0 = ground (arith, h, e, g.0) in
      let new : lookup x.lba es ≡ none = subst (λ j. lookup j es ≡ none) e g.1 in
      (
        0,
        here,
        record {
          tc = tc;
          at = refl;
          holds = subst (λ j. Contains tc (group j l)) e g.2;
          after = λ tc' c. (
            g.0,
            g.1,
            subst (λ j. Contains tc' (group j (l ++ x ∷ []))) (sym e)
                (subst (Contains tc') (sym (group-snoc_self l x)) c),
            Grouped-other (suc i) es heap l x new g.3,
          );
        },
      )
  | no ne ↦
      let ne' : x.lba ≢ k = λ e. ne (sym e) in
      let (q, e, s) = found-Slot (suc i) es heap l x p (ground (arith, h, ne)) g.3 in
      (
        suc q,
        omega (arith, e),
        record {
          tc = s.tc;
          at = s.at;
          holds = s.holds;
          after = λ tc' c.
              (g.0, g.1, subst (Contains tc) (sym (group-snoc_ne k l x ne')) g.2, s.after tc' c);
        },
      )
]

lookup-snoc_ne :
    (j k p : ℕ) (es : List (ℕ × ℕ))
    → j ≢ k
    → lookup j es ≡ none
    → lookup j (es ++ (k, p) ∷ []) ≡ none
lookup-snoc_ne j k p [] ne h = ground arith
lookup-snoc_ne j k p ((a, b) ∷ es) ne h = ground (arith, h, lookup-snoc_ne j k p es ne)

pub lookup-snoc_self :
    (k p : ℕ) (es : List (ℕ × ℕ)) → lookup k es ≡ none → lookup k (es ++ (k, p) ∷ []) ≡ some p
lookup-snoc_self k p [] h = ground arith
lookup-snoc_self k p ((a, b) ∷ es) h = ground (arith, h, lookup-snoc_self k p es)

pub lookup-snoc_none :
    (j k p : ℕ) (es : List (ℕ × ℕ))
    → lookup j (es ++ (k, p) ∷ []) ≡ none
    → (lookup j es ≡ none) × (j ≢ k)
lookup-snoc_none j k p [] h = (refl, λ e. ground (arith, h, e))
lookup-snoc_none j k p ((a, b) ∷ es) h = ground (arith, h, lookup-snoc_none j k p es)

-- A new entry behind the others, for a sector that has no traces yet.
pub Grouped-new :
    (i : ℕ) (es : List (ℕ × ℕ)) (heap : Heap) (l : List TraceInfo) (k : ℕ) (tc : TraceContainer)
    (p : ℕ)
    → Grouped i es heap l
    → lookup k es ≡ none
    → p ≡ i + length heap
    → Contains tc (group k l)
    → Grouped i (es ++ (k, p) ∷ []) (heap ++ some tc ∷ []) l
Grouped-new i [] [] l k tc p g new e c = (omega arith, refl, c, tt)
Grouped-new i [] (x ∷ heap) l k tc p g new e c = absurd g
Grouped-new i ((j, q) ∷ es) [] l k tc p g new e c = absurd g
Grouped-new i ((j, q) ∷ es) (none ∷ heap) l k tc p g new e c = absurd g
Grouped-new i ((j, q) ∷ es) (some tc' ∷ heap) l k tc p g new e c =
    let ne : j ≢ k = λ e. ground (arith, new, e) in
    (
      g.0,
      lookup-snoc_ne j k p es ne g.1,
      g.2,
      Grouped-new (suc i) es heap l k tc p g.3 (ground (arith, new, ne)) (omega arith) c,
    )
