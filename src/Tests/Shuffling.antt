-- ===== src/Tests/Shuffling.antt =====
-- The shuffled copy of a small file.
use mathlib.Core.List.{Perm}
use mathlib.Core.List.Perm
use gogeta_fs_ae.File.{count}
use gogeta_fs_ae.Buffer.{write_bytes, patch}
use gogeta_fs_ae.Common.{ℕ, ◌≡◌, refl, List, [], ◌∷◌, length-replicate, replicate, ok, arith}
use gogeta_fs_ae.Shuffle.{
  num_blocks_of, identity_map, read_blocks, write_shuffled, Surroundings, shuffle_and_write,
}
use gogeta_fs_ae.Shuffle.Short.{shuffle_and_write-short}

-- The first two elements change places.
abbrev swapped : List ℕ → List ℕ
swapped [] = []
swapped (x ∷ []) = x ∷ []
swapped (x ∷ y ∷ l) = y ∷ x ∷ l

abbrev around : Surroundings
around = record {
  malloced = λ k. replicate k 9;
  random_shuffle = swapped;
  reads = λ i. count 100;
  writes = λ i. count 100;
}

shuffle_and_write-test :
    shuffle_and_write around 2 (1 ∷ 2 ∷ 3 ∷ 4 ∷ 5 ∷ []) ≡ ok (3 ∷ 4 ∷ 1 ∷ 2 ∷ [])
unfolding shuffle_and_write num_blocks_of identity_map read_blocks write_shuffled write_bytes patch
shuffle_and_write-test = refl

shuffle_and_write-short_example :
    shuffle_and_write around 5 (1 ∷ 2 ∷ []) ≡ ok (1 ∷ 2 ∷ 9 ∷ 9 ∷ 9 ∷ [])
shuffle_and_write-short_example =
    shuffle_and_write-short 5 around (1 ∷ 2 ∷ []) (omega arith) (λ k. length-replicate k 9) refl 100
      100 refl (omega arith) refl (omega arith)
