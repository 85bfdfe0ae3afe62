-- ===== src/Shuffle/Order.antt =====
-- The new file has the blocks of the given one, in the order of the shuffle.
use mathlib.Core.List.{Perm, foldr}
use mathlib.Core.List.Perm
use gogeta_fs_ae.File.{Answer, count}
use gogeta_fs_ae.Common.{ℕ, ◌*◌, ◌≡◌, ◌≤◌, Bool, true, ◌&&◌, List, ltb, take, drop}

-- Numbers below `n`, by a test of all.
all_below : ℕ → List ℕ → Bool
all_below n = foldr (λ m b. ltb m n && b) true

module _ (granularity : ℕ) where
  -- Every read and write transfers its whole block.
  abbrev pub TakesAll : (ℕ → Answer) → Type 0
  TakesAll answers = (i : ℕ) → (k : ℕ) × (answers i ≡ count k) × (granularity ≤ k)

  abbrev pub block_at : List ℕ → ℕ → List ℕ
  block_at file m = take granularity (drop (m * granularity) file)
