-- ===== src/Tests/Aging.antt =====
-- The ageing of a file system: a run on one GiB, and runs that go wrong.
use gogeta_fs_ae.File.{count}
use gogeta_fs_ae.Common.{
  ◌+◌, ◌*◌, ◌-◌, ◌%◌, ◌^◌, ◌≡◌, refl, Bool, true, false, List, [], ◌∷◌, length, ok, err,
  out_of_fuel, out_of_bounds, arith,
}
use gogeta_fs_ae.Ageing.{
  fill_pages, fill_file, check_write, punch, punch_hole, holes, Aged, Kernel, punch_phase, age,
}
use gogeta_fs_ae.Ageing.Filled.{counted, fill_file-overrun}
use gogeta_fs_ae.Ageing.Punched.{punched_count, with_holes, Fair}
use gogeta_fs_ae.Ageing.Endless.{punch_phase-endless}
use gogeta_fs_ae.Ageing.Whole.{no_files, age-whole}

-- The draws count up.
abbrev kernel : Kernel
kernel = record {
  fill_answers = λ i. count (2 ^ 30);
  refill_answers = λ i. count (2 ^ 30);
  rand = λ i. i;
  fallocate_works = λ pos. true;
}

fill_file-test : fill_file 8192 (λ i. count 8192) 2 0 7 ≡ ok (7 ∷ 8 ∷ 9 ∷ 10 ∷ [])
unfolding fill_file fill_pages check_write
fill_file-test = refl

punch-test :
    punch (λ i. i) (λ pos. true) 4 9 2 (false ∷ true ∷ false ∷ false ∷ []) 2 (5 ∷ 0 ∷ 7 ∷ 8 ∷ [])
    ≡ ok (5 ∷ 0 ∷ 0 ∷ 0 ∷ [], false ∷ true ∷ true ∷ true ∷ [])
unfolding punch punch_hole
punch-test = refl

draws-Fair : Fair kernel.rand kernel.fallocate_works 262144 262144
draws-Fair calls pos lt =
    ((pos + (262144 - calls % 262144)) % 262144, omega arith, omega (arith, lt))

age-whole_example :
    (files : Aged) × (records : List Bool) × (age kernel (2 ^ 35) 1 2097152 50 4 no_files
      ≡ ok files)
    × (length records ≡ 262144)
    × (punched_count records ≡ holes 262144 50)
    × (files.file1 ≡ with_holes records (counted 262144 (512 * 512)))
    × (files.file2 ≡ counted (3 * 262144) (holes 512 50 * 512))
unfolding holes
age-whole_example =
    age-whole kernel (2 ^ 35) 1 2097152 50 512 262144
      (record {
        fills = λ i. (2 ^ 30, refl, omega arith);
        refills = λ i. (2 ^ 30, refl, omega arith);
        punches = λ pos. refl;
      })
      refl (omega arith) (omega arith) (omega arith) (omega arith) draws-Fair (omega arith)

punch_phase-endless_example : punch_phase kernel 1000 1 2097152 101 no_files ≡ err out_of_fuel
unfolding holes
punch_phase-endless_example =
    punch_phase-endless kernel 1000 1 2097152 101 no_files (omega arith) (omega arith)

fill_file-overrun_example : fill_file 5000 kernel.fill_answers 1 0 7 ≡ err out_of_bounds
fill_file-overrun_example = fill_file-overrun 5000 kernel.fill_answers 0 0 7 (ground arith)
