-- ===== src/Assign/Shares/Groups.antt =====
-- Workers' containers that hold whole groups, and the containers of the groups in the heap.
use gogeta_fs_ae.Common.{
  ℕ, zero, suc, ◌≡◌, ◌≢◌, refl, ap, ◌∙◌, none, some, List, [], ◌∷◌, ◌++◌, length, get_elem?,
  get_elem?-set_ne, set, replicate, ok, flat, arith,
}
use gogeta_fs_ae.Trace.{TraceInfo}
use gogeta_fs_ae.Container.{TraceContainer, default_collections_capacity}
use gogeta_fs_ae.Container.Contents.{Contains, create-Contains}
use gogeta_fs_ae.Gather.{Heap, found}
use gogeta_fs_ae.Assign.Shares.{create_tcs}

-- Container by container: it holds the traces of its groups, one group behind the other.
abbrev pub AllContain : List TraceContainer → List (List (List TraceInfo)) → Type 0
AllContain [] [] = Unit
AllContain [] (gs ∷ gss) = ⊥
AllContain (tc ∷ tcs) [] = ⊥
AllContain (tc ∷ tcs) (gs ∷ gss) = Contains tc (flat gs) × AllContain tcs gss

abbrev pub NotIn : ℕ → List ℕ → Type 0
NotIn p [] = Unit
NotIn p (q ∷ ps) = (p ≢ q) × NotIn p ps

-- The pointers are distinct, and the container behind each holds its group.
abbrev pub Owned : Heap → List ℕ → List (List TraceInfo) → Type 0
Owned heap [] [] = Unit
Owned heap [] (g ∷ gs) = ⊥
Owned heap (p ∷ ps) [] = ⊥
Owned heap (p ∷ ps) (g ∷ gs) =
    ((tc : TraceContainer) × (found (get_elem? heap p) ≡ ok tc) × Contains tc g)
    × NotIn p ps
    × Owned heap ps gs

pub Owned-free :
    (heap : Heap) (p : ℕ) (ps : List ℕ) (gs : List (List TraceInfo))
    → NotIn p ps
    → Owned heap ps gs
    → Owned (set heap p none) ps gs
Owned-free heap p [] [] new o = tt
Owned-free heap p [] (g ∷ gs) new o = absurd o
Owned-free heap p (q ∷ ps) [] new o = absurd o
Owned-free heap p (q ∷ ps) (g ∷ gs) new o = (
  (o.0.0, ap found (get_elem?-set_ne heap p q none new.0) ∙ o.0.1, o.0.2),
  o.1,
  Owned-free heap p ps gs new.1 o.2,
)

-- The container of the worker behind `before`, and that container with other groups.
pub AllContain-at :
    (tcs : List TraceContainer) (before : List (List (List TraceInfo)))
    (now : List (List TraceInfo)) (after : List (List (List TraceInfo)))
    → AllContain tcs (before ++ (now ∷ after))
    → (tc : TraceContainer) × (get_elem? tcs (length before) ≡ some tc)
      × Contains tc (flat now)
      × ((tc' : TraceContainer) (now' : List (List TraceInfo))
          → Contains tc' (flat now')
          → AllContain (set tcs (length before) tc') (before ++ (now' ∷ after)))
AllContain-at [] [] now after a = absurd a
AllContain-at [] (gs ∷ before) now after a = absurd a
AllContain-at (tc ∷ tcs) [] now after a = (tc, refl, a.0, λ tc' now' c. (c, a.1))
AllContain-at (t ∷ tcs) (gs ∷ before) now after a =
    let (tc, at, c, put) = AllContain-at tcs before now after a.1 in
    (tc, at, c, λ tc' now' c'. (a.0, put tc' now' c'))

pub AllContain-create : (n i : ℕ) → AllContain (create_tcs n i) (replicate n [])
unfolding create_tcs
AllContain-create zero i = tt
AllContain-create (suc n) i =
    (create-Contains default_collections_capacity i (omega arith), AllContain-create n (suc i))
