-- ===== src/Shuffle.antt =====
-- nvm_tools-J/helper/shuffle_and_write.cpp: the blocks of a file are read into a buffer and written in
-- another order to a new file. std::random_shuffle is a parameter, and so are the answers to read and
-- write and what malloc leaves in a buffer of a given size. The number of blocks is an int.
pub mod Order
pub mod Short
use gogeta_fs_ae.File.{Answer, count, failed}
use gogeta_fs_ae.Buffer.{write_bytes}
use gogeta_fs_ae.Common.{
  ℕ, zero, suc, ◌+◌, ◌*◌, ◌/◌, true, false, List, [], ◌∷◌, ◌++◌, leb, ◌==◌, length, take, drop, min,
  Result, ok, err, div_by_zero, out_of_bounds, ◌>>=◌, if◌then◌else◌,
}

-- `size / granularity == 0 ? 1 : size / granularity`
unfoldable pub num_blocks_of : (size granularity : ℕ) → Result ℕ
num_blocks_of size granularity =
    if granularity == 0
    then err div_by_zero
    else ok (if size / granularity == 0 then 1 else size / granularity)

-- `while (pos < num_blocks)`, for `n` blocks from `pos`.
unfoldable pub identity_map : (n pos : ℕ) → List ℕ
identity_map zero pos = []
identity_map (suc n) pos = pos ∷ identity_map n (suc pos)

module _ (granularity : ℕ) where
  -- The loop of reads from block `i`: `file` is what is still to be read. What read returns is not
  -- tested, and a read that fails leaves the buffer.
  unfoldable pub read_blocks : (ℕ → Answer) → (n i : ℕ) → (file buf : List ℕ) → Result (List ℕ)
  read_blocks answers zero i file buf = ok buf
  read_blocks answers (suc n) i file buf = elim (answers i) [
    | failed ↦ read_blocks answers n (suc i) file buf
    | count k ↦ do
      let ret : ℕ = min k (min granularity (length file))
      buf' ← write_bytes buf (i * granularity) (take ret file)
      read_blocks answers n (suc i) (drop ret file) buf'
  ]

  -- The loop of writes over the map; no block may reach behind the buffer.
  unfoldable pub write_shuffled : (ℕ → Answer) → (i : ℕ) → (map buf out : List ℕ) → Result (List ℕ)
  write_shuffled answers i [] buf out = ok out
  write_shuffled answers i (m ∷ map) buf out =
      elim (leb (m * granularity + granularity) (length buf)) [
        | true ↦ elim (answers i) [
          | failed ↦ write_shuffled answers (suc i) map buf out
          | count k ↦
              write_shuffled answers (suc i) map buf
                (out ++ take (min k granularity) (drop (m * granularity) buf))
        ]
        | false ↦ err out_of_bounds
      ]

-- What malloc, the shuffle and the calls give.
pub record Surroundings : Type 0 where
  pub malloced : ℕ → List ℕ
  pub random_shuffle : List ℕ → List ℕ
  pub reads : ℕ → Answer
  pub writes : ℕ → Answer

-- The new file, for the bytes of the given one.
unfoldable pub shuffle_and_write : Surroundings → (granularity : ℕ) → List ℕ → Result (List ℕ)
shuffle_and_write s granularity file = do
  n ← num_blocks_of (length file) granularity
  let map = s.random_shuffle (identity_map n 0)
  buf ← read_blocks granularity s.reads n 0 file (s.malloced (granularity * n))
  write_shuffled granularity s.writes 0 map buf []
