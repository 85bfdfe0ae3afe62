-- ===== src/Assign/Sectors.antt =====
-- From the sorted hash map to the list of the containers that are handed out.
use gogeta_fs_ae.Common.{
  ℕ, suc, ◌<◌, ◌≡◌, ap, sym, subst, ◌∙◌, none, some, List, [], ◌∷◌, ◌++◌, append_assoc, length,
  length-append, get_elem?, get_elem?-append, arith,
}
use gogeta_fs_ae.Trace.{TraceInfo}
use gogeta_fs_ae.HashMap.{Reordered, same, exchange}
use gogeta_fs_ae.Gather.{Heap, found}
use gogeta_fs_ae.Gather.Groups.{group, Grouped}
use gogeta_fs_ae.Assign.Shares.Groups.{NotIn, Owned}

-- The pointers of the entries, and the groups of their sectors.
abbrev pub values : List (ℕ × ℕ) → List ℕ
values [] = []
values ((k, p) ∷ es) = p ∷ values es

abbrev pub groups : List TraceInfo → List (ℕ × ℕ) → List (List TraceInfo)
groups l [] = []
groups l ((k, p) ∷ es) = group k l ∷ groups l es

NotIn-exchange :
    (q : ℕ) (pre : List (ℕ × ℕ)) (x y : ℕ × ℕ) (post : List (ℕ × ℕ))
    → NotIn q (values (pre ++ (x ∷ y ∷ post)))
    → NotIn q (values (pre ++ (y ∷ x ∷ post)))
NotIn-exchange q [] x y post h = (h.1.0, (h.0, h.1.1))
NotIn-exchange q (e ∷ pre) x y post h = (h.0, NotIn-exchange q pre x y post h.1)

Owned-exchange :
    (heap : Heap) (l : List TraceInfo) (pre : List (ℕ × ℕ)) (x y : ℕ × ℕ) (post : List (ℕ × ℕ))
    → Owned heap (values (pre ++ (x ∷ y ∷ post))) (groups l (pre ++ (x ∷ y ∷ post)))
    → Owned heap (values (pre ++ (y ∷ x ∷ post))) (groups l (pre ++ (y ∷ x ∷ post)))
Owned-exchange heap l [] x y post o = (o.2.0, ((λ e. o.1.0 (sym e)), o.2.1), (o.0, o.1.1, o.2.2))
Owned-exchange heap l (e ∷ pre) x y post o =
    (o.0, NotIn-exchange e.1 pre x y post o.1, Owned-exchange heap l pre x y post o.2)

-- Sorting keeps the containers.
pub Owned-Reordered :
    (heap : Heap) (l : List TraceInfo) {es es' : List (ℕ × ℕ)}
    → Reordered es es'
    → Owned heap (values es) (groups l es)
    → Owned heap (values es') (groups l es')
Owned-Reordered heap l same o = o
Owned-Reordered heap l (exchange pre x y post r rest) o =
    Owned-Reordered heap l rest (Owned-exchange heap l pre x y post o)

-- The pointers behind an entry are larger.
Grouped-above :
    (p i : ℕ) (es : List (ℕ × ℕ)) (heap : Heap) (l : List TraceInfo)
    → Grouped i es heap l
    → p < i
    → NotIn p (values es)
Grouped-above p i [] heap l g lt = tt
Grouped-above p i ((k, q) ∷ es) [] l g lt = absurd g
Grouped-above p i ((k, q) ∷ es) (none ∷ heap) l g lt = absurd g
Grouped-above p i ((k, q) ∷ es) (some tc ∷ heap) l g lt =
    ((λ e. omega (arith, e, g.0, lt)), Grouped-above p (suc i) es heap l g.3 (omega (arith, lt)))

-- The containers that were gathered are distinct and hold their sectors' traces.
pub Grouped-Owned :
    (pre : Heap) (es : List (ℕ × ℕ)) (heap : Heap) (l : List TraceInfo)
    → Grouped (length pre) es heap l
    → Owned (pre ++ heap) (values es) (groups l es)
Grouped-Owned pre [] heap l g = tt
Grouped-Owned pre ((k, p) ∷ es) [] l g = absurd g
Grouped-Owned pre ((k, p) ∷ es) (none ∷ heap) l g = absurd g
Grouped-Owned pre ((k, p) ∷ es) (some tc ∷ heap) l g =
    let size : length (pre ++ some tc ∷ []) ≡ suc (length pre) =
      omega (arith, length-append pre (some tc ∷ [])) in
    (
      (
        tc,
        ap (λ i. found (get_elem? (pre ++ some tc ∷ heap) i)) g.0
            ∙ ap found (get_elem?-append pre heap (some tc)),
        g.2,
      ),
      Grouped-above p (suc (length pre)) es heap l g.3 (omega (arith, g.0)),
      subst (λ h. Owned h (values es) (groups l es)) (append_assoc pre (some tc ∷ []) heap)
          (Grouped-Owned (pre ++ some tc ∷ []) es heap l
            (subst (λ i. Grouped i es heap l) (sym size) g.3)),
    )
