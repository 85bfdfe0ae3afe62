-- ===== src/Makers.antt =====
-- nvm_tools-J/helper/create_files.c, write_1G.c and exhaust_nvmm.c: small programs that make files. A
-- page is given by the number that fills it. The answers of the calls, atoi and the text that sprintf
-- gives for a number are parameters. The prints are not modelled.
pub mod Names
pub mod Pages
pub mod Blocks
use gogeta_fs_ae.Common.{
  ℕ, zero, suc, ◌+◌, ◌-◌, ◌*◌, ◌/◌, ◌%◌, ◌^◌, Bool, true, false, List, [], ◌∷◌, ◌++◌, ltb, leb,
  ◌==◌, length, min, Result, ok, err, exited, int_overflow, out_of_bounds, out_of_fuel, ◌>>=◌,
  if◌then◌else◌,
}
use gogeta_fs_ae.File.{Answer, count, failed}

-- What creat and close of the file of number `i` say.
pub data Made : Type 0 where
  created not_created not_closed : Made

module _ (sprintf : ℕ → List ℕ) (answers : ℕ → Made) (base : List ℕ) where
  -- The loop of create_files.c, for `n` files from the one of number `i`: the files that are there at
  -- the end, and whether all calls succeeded. `name` has 1000 characters, the NUL included.
  unfoldable pub create_from : (n i : ℕ) → List (List ℕ) → Result (List (List ℕ) × Bool)
  create_from zero i files = ok (files, true)
  create_from (suc n) i files =
      let name = base ++ sprintf i in
      let rest = create_from n (suc i) (files ++ name ∷ []) in
      if ltb (length name) 1000
      then elim (answers i) [
        | created ↦ rest
        | not_created ↦ ok (files, false)
        | not_closed ↦ ok (files ++ name ∷ [], false)
      ]
      else err out_of_bounds

  -- `n` is what atoi gives for argv[2], an int by its 32 bits.
  unfoldable pub create_files : (n : ℕ) → Result (List (List ℕ) × Bool)
  create_files n =
      if ltb (length base) 1000
      then create_from (if ltb n (2 ^ 31) then n else 0) 0 []
      else err out_of_bounds

-- SIZE, STEP and PAGE_SIZE of write_1G.c; the last is STEP of exhaust_nvmm.c.
abbrev pub total_size : ℕ
total_size = 2 ^ 30

abbrev pub step_size : ℕ
step_size = 2 ^ 21

abbrev pub page_bytes : ℕ
page_bytes = 4096

-- `atoi(argv[1]) * (SIZE / PAGE_SIZE)`, a product of ints that becomes a uint64_t.
unfoldable pub first_value : (seed : ℕ) → Result ℕ
first_value seed =
    if ltb seed (2 ^ 31)
    then (if ltb (seed * (total_size / page_bytes)) (2 ^ 31)
        then ok (seed * (total_size / page_bytes))
        else err int_overflow)
    else (if leb ((2 ^ 32 - seed) * (total_size / page_bytes)) (2 ^ 31)
        then ok (2 ^ 64 - (2 ^ 32 - seed) * (total_size / page_bytes))
        else err int_overflow)

-- The loop that fills the buffer, for `n` pages: the pages, and `v` behind it.
unfoldable pub fill_buffer : (n v : ℕ) → List ℕ × ℕ
fill_buffer zero v = ([], v)
fill_buffer (suc n) v = let rest = fill_buffer n ((v + 1) % 2 ^ 64) in (v ∷ rest.0, rest.1)

module _ (answers : ℕ → Answer) where
  -- The loop over the writes, for `n` of them from the one of number `i`: the pages of the file.
  unfoldable pub write_steps : (n i v : ℕ) → (file : List ℕ) → Result (List ℕ)
  write_steps zero i v file = ok file
  write_steps (suc n) i v file =
      let buffer = fill_buffer (step_size / page_bytes) v in
      let rest = write_steps n (suc i) buffer.1 (file ++ buffer.0) in
      elim (answers i) [
        | failed ↦ err (exited 1)
        | count k ↦ if min k step_size == step_size then rest else err (exited 1)
      ]

  -- `is_there` is the first open, and `opens` the second.
  unfoldable pub write_1g : (is_there opens : Bool) → (seed : ℕ) → Result (List ℕ)
  write_1g is_there opens seed =
      if is_there
      then err (exited 1)
      else (if opens
          then (first_value seed >>= λ v. write_steps (total_size / step_size) 0 v [])
          else err (exited 1))

  -- The loop of exhaust_nvmm.c: the blocks written in whole.
  unfoldable pub exhaust_from : (fuel block_cnt : ℕ) → Result ℕ
  exhaust_from zero block_cnt = err out_of_fuel
  exhaust_from (suc f) block_cnt =
      let rest = exhaust_from f (suc block_cnt) in
      elim (answers block_cnt) [
        | failed ↦ ok block_cnt
        | count k ↦ if min k page_bytes == page_bytes then rest else ok block_cnt
      ]

  -- A file that is there already is an error, with the status 0.
  unfoldable pub exhaust_nvmm : (is_there opens : Bool) → (fuel : ℕ) → Result ℕ
  exhaust_nvmm is_there opens fuel =
      if is_there then err (exited 0) else (if opens then exhaust_from fuel 0 else err (exited 1))
