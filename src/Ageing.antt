-- ===== src/Ageing.antt =====
-- nvm_tools-J/helper/aging_system.c: a file is written, holes are punched in it, and another file is
-- written to fill them. A page is given by the number that fills it; a hole reads as 0. The answers to
-- write are a stream, `genrand_int32` is a stream of numbers, and calloc and malloc succeed. An
-- unsigned long has 64 bits; `hole_percent` is given as it is converted to one.
pub mod Main
pub mod Filled
pub mod Punched
pub mod Endless
pub mod Whole
use gogeta_fs_ae.File.{Answer, count, failed}
use gogeta_fs_ae.Common.{
  ℕ, zero, suc, ◌+◌, ◌*◌, ◌/◌, ◌%◌, ◌^◌, min, Bool, true, false, ◌||◌, Option, none, some, List, [],
  ◌∷◌, ◌++◌, ltb, leb, ◌==◌, get_elem?, set, drop, length, replicate, Result, ok, err, exited,
  div_by_zero, out_of_bounds, out_of_fuel, ◌>>=◌, ◌>>◌, if◌then◌else◌,
}

abbrev pub page_size : ℕ
page_size = 4096

module _ (block_size : ℕ) where
  -- `for (j = 0; j < block_size; j += PAGE_SIZE)`: the pages of the buffer, and v. fill_page writes a
  -- whole page; behind the end of the buffer this is undefined.
  unfoldable pub fill_pages : ℕ → (j v : ℕ) → Result (List ℕ × ℕ)
  fill_pages zero j v = err out_of_fuel
  fill_pages (suc f) j v = elim (ltb j block_size) [
    | true ↦ elim (leb (j + page_size) block_size) [
      | true ↦ do (pages, v') ← fill_pages f (j + page_size) ((v + 1) % 2 ^ 64); ok (v ∷ pages, v')
      | false ↦ err out_of_bounds
    ]
    | false ↦ ok ([], v)
  ]

  -- The tests of `ret`, an int, after write.
  unfoldable pub check_write : Answer → Result (Unit {0})
  check_write failed = err (exited 1)
  check_write (count k) =
      let ret : ℕ = min k block_size % 2 ^ 32 in
      if leb (2 ^ 31) ret
      then err (exited 1)
      else (if ret == block_size then ok tt else err (exited 1))

  -- The loop over the blocks: the pages that are written.
  unfoldable pub fill_file : (ℕ → Answer) → (n calls v : ℕ) → Result (List ℕ)
  fill_file answers zero calls v = ok []
  fill_file answers (suc n) calls v = do
    (pages, v') ← fill_pages (suc block_size) 0 v
    written ← check_write (answers calls)
    rest ← fill_file answers n (suc calls) v'
    ok (pages ++ rest)

-- `total_4K_blks * hole_percent / 100`, and so for the blocks of the other file.
unfoldable pub holes : (blocks hole_percent : ℕ) → ℕ
holes blocks hole_percent = blocks * hole_percent % 2 ^ 64 / 100

module _ (rand : ℕ → ℕ) (fallocate_works : ℕ → Bool) (total_4K_blks : ℕ) where
  -- A failure is only reported.
  unfoldable pub punch_hole : (pos : ℕ) → List ℕ → List ℕ
  punch_hole pos file = if fallocate_works pos then set file pos 0 else file

  -- `while (hole_num)`: the file and the records. `calls` numbers were drawn before.
  unfoldable pub punch :
      ℕ → (calls : ℕ) → List Bool → (hole_num : ℕ) → List ℕ → Result (List ℕ × List Bool)
  punch f calls records zero file = ok (file, records)
  punch zero calls records (suc h) file = err out_of_fuel
  punch (suc f) calls records (suc h) file =
      let pos : ℕ = rand calls % total_4K_blks in
      elim (total_4K_blks == 0) [
        | true ↦ err div_by_zero
        | false ↦ elim (get_elem? records pos) [
          | none ↦ err out_of_bounds
          | some true ↦ punch f (suc calls) records (suc h) file
          | some false ↦ punch f (suc calls) (set records pos true) h (punch_hole pos file)
        ]
      ]

  unfoldable pub punch_holes : (fuel hole_num : ℕ) → List ℕ → Result (List ℕ × List Bool)
  punch_holes fuel hole_num file = punch fuel 0 (replicate total_4K_blks false) hole_num file

-- The two files, /file1 and /file2.
pub record Aged : Type 0 where
  pub file1 : List ℕ
  pub file2 : List ℕ

-- A write from the start of a file, which open does not cut.
abbrev pub overwritten : (written old : List ℕ) → List ℕ
overwritten written old = written ++ drop (length written) old

-- What the calls answer.
pub record Kernel : Type 0 where
  pub fill_answers : ℕ → Answer
  pub refill_answers : ℕ → Answer
  pub rand : ℕ → ℕ
  pub fallocate_works : ℕ → Bool

module _ (k : Kernel) (fuel size_gib block_size hole_percent : ℕ) where
  abbrev pub size : ℕ
  size = size_gib * (1024 * 1024 * 1024) % 2 ^ 64

  abbrev pub total : ℕ
  total = size / page_size

  unfoldable pub create_phase : Aged → Result Aged
  create_phase files = do
    pages ← fill_file block_size k.fill_answers (size / block_size) 0 total
    ok (record files { file1 = overwritten pages files.file1 })

  unfoldable pub punch_phase : Aged → Result Aged
  punch_phase files = do
    (file, records) ←
        punch_holes k.rand k.fallocate_works total fuel (holes total hole_percent) files.file1
    ok (record files { file1 = file })

  unfoldable pub refill_phase : Aged → Result Aged
  refill_phase files = do
    pages ←
        fill_file block_size k.refill_answers (holes (size / block_size) hole_percent) 0
          (3 * total % 2 ^ 64)
    ok (record files { file2 = overwritten pages files.file2 })

  -- The phases that `-p` asks for; open succeeds here, and `block_size` is the number that the default
  -- has replaced where it was 0.
  unfoldable pub age : (phase : ℕ) → Aged → Result Aged
  age phase files = do
    created ← if phase == 1 || phase == 4 then create_phase files else ok files
    punched ← if phase == 2 || phase == 4 then punch_phase created else ok created
    if phase == 3 || phase == 4 then refill_phase punched else ok punched
