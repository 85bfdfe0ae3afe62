-- ===== src/Ageing/Whole.antt =====
-- A whole run: the two files at its end.
use native.Mathlib.Nat.{mul-le-mul_left, mul-le-mul_right, mul-div-le}
use gogeta_fs_ae.File.{count}
use gogeta_fs_ae.Common.{
  ℕ, zero, suc, ◌*◌, ◌/◌, ◌%◌, ◌^◌, ◌≤◌, ◌<◌, ◌≡◌, refl, ap, sym, ◌∙◌, Bool, true, List, [], ◌++◌,
  append-nil, length, drop, ok, ◌>>=◌, >>=-ok, arith,
}
use gogeta_fs_ae.Ageing.{
  holes, fill_file, Aged, Kernel, overwritten, size, total, create_phase, punch_phase, refill_phase,
  age,
}
use gogeta_fs_ae.Ageing.Filled.{counted, fill_file-counted}
use gogeta_fs_ae.Ageing.Punched.{punched_count, with_holes, Fair, punch_holes-ends}

-- No call fails, and write takes every block whole.
pub record Obliging (k : Kernel) (block_size : ℕ) : Type 0 where
  pub fills : (i : ℕ) → (n : ℕ) × (k.fill_answers i ≡ count n) × (block_size ≤ n)
  pub refills : (i : ℕ) → (n : ℕ) × (k.refill_answers i ≡ count n) × (block_size ≤ n)
  pub punches : (pos : ℕ) → k.fallocate_works pos ≡ true

abbrev pub no_files : Aged
no_files = record { file1 = []; file2 = [] }

overwritten-empty : (l : List ℕ) → overwritten l [] ≡ l
overwritten-empty l = nothing (length l)
  where
    nothing : (n : ℕ) → l ++ drop n [] ≡ l
    nothing zero = append-nil l
    nothing (suc n) = append-nil l

holes-le :
    (blocks hole_percent : ℕ)
    → hole_percent ≤ 100
    → blocks < 2 ^ 56
    → holes blocks hole_percent ≤ blocks
unfolding holes
holes-le blocks hole_percent few small =
    let most : blocks * hole_percent ≤ blocks * 100 = mul-le-mul_left blocks few in
    omega (arith, most, small)

module _ (k : Kernel) (fuel size_gib block_size hole_percent m gap : ℕ)
    (good : Obliging k block_size) (pages : m * 4096 ≡ block_size) (some_pages : 1 ≤ m)
    (small : block_size < 2 ^ 31) where
  abbrev bytes : ℕ
  bytes = size k fuel size_gib block_size hole_percent

  abbrev all_pages : ℕ
  all_pages = total k fuel size_gib block_size hole_percent

  whole_blocks-le : (bytes / block_size) * m ≤ all_pages
  whole_blocks-le =
      let fit = mul-div-le bytes block_size in
      let by_pages : block_size * (bytes / block_size) ≡ (bytes / block_size) * m * 4096 =
        ap (λ b. b * (bytes / block_size)) (sym pages) ∙ grind arith in
      omega (arith, fit, by_pages)

  create_phase-counted :
      create_phase k fuel size_gib block_size hole_percent no_files
      ≡ ok (record { file1 = counted all_pages ((bytes / block_size) * m); file2 = [] })
  unfolding create_phase
  create_phase-counted =
      >>=-ok _ (
        fill_file-counted block_size m k.fill_answers pages small good.fills (bytes / block_size) 0
          all_pages (omega (arith, whole_blocks-le)))
      ∙ ap (λ l. ok (record { file1 = l; file2 = [] }))
          (overwritten-empty (counted all_pages ((bytes / block_size) * m)))

  refill_phase-counted :
      (file : List ℕ)
      → hole_percent ≤ 100
      → refill_phase k fuel size_gib block_size hole_percent (record { file1 = file; file2 = [] })
        ≡ ok (record {
          file1 = file;
          file2 = counted (3 * all_pages) (holes (bytes / block_size) hole_percent * m);
        })
  unfolding refill_phase
  refill_phase-counted file percent =
      let blocks_le : bytes / block_size ≤ all_pages =
        omega (arith, whole_blocks-le, mul-le-mul_left (bytes / block_size) some_pages) in
      let refilled : ℕ = holes (bytes / block_size) hole_percent in
      let few = holes-le (bytes / block_size) hole_percent percent (omega (arith, blocks_le)) in
      let few_pages : refilled * m ≤ (bytes / block_size) * m = mul-le-mul_right m few in
      let wraps : 3 * all_pages % 2 ^ 64 ≡ 3 * all_pages = omega arith in
      ap
        (λ v. fill_file block_size k.refill_answers refilled 0 v >>= λ l.
          ok (record { file1 = file; file2 = overwritten l [] }))
        wraps
      ∙ >>=-ok _ (
          fill_file-counted block_size m k.refill_answers pages small good.refills refilled 0
            (3 * all_pages) (omega (arith, few_pages, whole_blocks-le)))
      ∙ ap (λ l. ok (record { file1 = file; file2 = l }))
          (overwritten-empty (counted (3 * all_pages) (refilled * m)))

  -- With blocks of one page or more and less than 2 ^ 31 bytes, at most 100 percent, calls that do not
  -- fail, writes that take their whole block, at least one page and each page drawn among any `gap`
  -- draws: the four phases, run on no files, end. The first file has the pages of the whole blocks,
  -- counted up from the number of pages, with holes at pages of which exactly the share asked for was
  -- recorded; the second has that share of blocks, counted up from three times the number of pages.
  pub age-whole :
      1 ≤ all_pages
      → hole_percent ≤ 100
      → Fair k.rand k.fallocate_works all_pages gap
      → holes all_pages hole_percent * gap ≤ fuel
      → (files : Aged) × (records : List Bool) × (age k fuel size_gib block_size hole_percent 4
            no_files
          ≡ ok files)
        × (length records ≡ all_pages)
        × (punched_count records ≡ holes all_pages hole_percent)
        × (files.file1 ≡ with_holes records (counted all_pages ((bytes / block_size) * m)))
        × (files.file2 ≡ counted (3 * all_pages) (holes (bytes / block_size) hole_percent * m))
  unfolding age punch_phase
  age-whole some_blks percent fair enough =
      let old = counted all_pages ((bytes / block_size) * m) in
      let (file, records, e, all, number, holed) =
        punch_holes-ends k.rand k.fallocate_works all_pages good.punches old gap fair some_blks fuel
          (holes all_pages hole_percent) (holes-le all_pages hole_percent percent (omega arith))
          enough in
      (
        record {
          file1 = file;
          file2 = counted (3 * all_pages) (holes (bytes / block_size) hole_percent * m);
        },
        records,
        >>=-ok _ create_phase-counted ∙ >>=-ok _ (>>=-ok _ e) ∙ refill_phase-counted file percent,
        all,
        number,
        holed,
        refl,
      )
