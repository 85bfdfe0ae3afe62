-- ===== src/Tests/Making.antt =====
-- The programs that make files on small inputs.
use gogeta_fs_ae.Common.{
  ℕ, ◌*◌, ◌/◌, ◌≡◌, ◌≢◌, inr, refl, Bool, true, false, List, [], ◌∷◌, ltb, ok, err, int_overflow,
  All, Pairs, if◌then◌else◌, arith,
}
use gogeta_fs_ae.File.{Answer, count}
use gogeta_fs_ae.Makers.{
  Made, created, not_created, create_from, create_files, first_value, write_1g, exhaust_nvmm,
}
use gogeta_fs_ae.Makers.Names.{names, Ended, create_files-names}
use gogeta_fs_ae.Makers.Pages.{numbers_from, write_1g-numbers}
use gogeta_fs_ae.Makers.Blocks.{exhaust_nvmm-counts}

-- A text of its own for every number.
abbrev one_sign : ℕ → List ℕ
one_sign n = n ∷ []

one_sign-inj : (i j : ℕ) → one_sign i ≡ one_sign j → i ≡ j
one_sign-inj i j e = cc e

-- The third file is not created.
abbrev two_made : ℕ → Made
two_made i = if ltb i 2 then created else not_created

two_made-test :
    create_files one_sign two_made (b'f' ∷ []) 5
    ≡ ok ((b'f' ∷ 0 ∷ []) ∷ (b'f' ∷ 1 ∷ []) ∷ [], false)
unfolding create_files create_from
two_made-test = refl

create_files-names_example :
    (k : ℕ) × (all : Bool) × (create_files one_sign two_made (b'f' ∷ []) 5
      ≡ ok (names one_sign (b'f' ∷ []) k 0, all))
    × Ended two_made 0 5 k all
    × Pairs ◌≢◌ (names one_sign (b'f' ∷ []) k 0)
create_files-names_example =
    create_files-names one_sign (b'f' ∷ []) two_made (λ i. omega arith) 5 (omega arith) one_sign-inj

abbrev whole_step : ℕ → Answer
whole_step i = count 2097152

write_1g-numbers_example :
    (write_1g whole_step false true 3 ≡ ok (numbers_from (3 * 262144) 262144))
    × All (λ page. page / 262144 ≡ 3) (numbers_from (3 * 262144) 262144)
write_1g-numbers_example =
    write_1g-numbers whole_step (λ i. (2097152, refl, omega arith)) 3 (omega arith)

seed_too_large-test : first_value 8192 ≡ err int_overflow
unfolding first_value
seed_too_large-test = refl

-- Two blocks, and then a part of one.
abbrev two_blocks : ℕ → Answer
two_blocks i = if ltb i 2 then count 4096 else count 100

exhaust_nvmm-counts_example : exhaust_nvmm two_blocks false true 3 ≡ ok 2
exhaust_nvmm-counts_example =
    exhaust_nvmm-counts two_blocks 2
      (λ j high. let two : ltb j 2 ≡ true = ground (arith, high) in (4096, rw two, omega arith))
      (inr (100, refl, omega arith))
