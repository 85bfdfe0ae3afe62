-- ===== src/HashMap.antt =====
-- The hash map that the replayer uses (nvm_tools-J/helper/map.h, a copy of c-hashmap), as far as the
-- replayer calls it: keys are sector numbers, compared by their bytes, and values are pointers.
-- `entries` is the list that foreach_hashmap_bucket walks, in the order in which keys were added.
use gogeta_fs_ae.Common.{ℕ, ◌≡◌, Option, none, some, List, [], ◌∷◌, ◌++◌, ◌==◌, true, false}

abbrev pub lookup : ℕ → List (ℕ × ℕ) → Option ℕ
lookup k [] = none
lookup k ((j, v) ∷ m) = elim (j == k) [ true ↦ some v | false ↦ lookup k m ]

-- The second list holds the elements of the first in another order: exchanges of neighbours.
pub data Reordered {ℓ} {A : Type ℓ} : List A → List A → Type ℓ where
  same : {l : List A} → Reordered l l
  exchange :
      (pre : List A) (x y : A) (post r : List A)
      → Reordered (pre ++ (y ∷ x ∷ post)) r
      → Reordered (pre ++ (x ∷ y ∷ post)) r

pub record HashMap : Type 1 where
  pub Map : Type 0
  pub hashmap_create : Map
  pub hashmap_get : Map → ℕ → Option ℕ
  pub hashmap_set : Map → ℕ → ℕ → Map
  pub hashmap_sort : Map → (ℕ → ℕ → ℕ) → Map
  pub entries : Map → List (ℕ × ℕ)
  -- a new map has no entries
  pub entries-create : entries hashmap_create ≡ []
  -- hashmap_get finds the value of a key that was set
  pub get-lookup : (m : Map) (k : ℕ) → hashmap_get m k ≡ lookup k (entries m)
  -- a new key goes behind the others
  pub entries-set :
      (m : Map) (k v : ℕ)
      → lookup k (entries m) ≡ none
      → entries (hashmap_set m k v) ≡ entries m ++ (k, v) ∷ []
  -- sorting reorders the entries; the comparison returns an int, given by its 32 bits
  pub entries-sort :
      (m : Map) (cmp : ℕ → ℕ → ℕ) → Reordered (entries m) (entries (hashmap_sort m cmp))
