-- ===== src/Tests/Phasing.antt =====
-- main of the ageing program on small inputs.
use gogeta_fs_ae.Common.{ℕ, ◌+◌, ◌-◌, ◌^◌, ◌≡◌, refl, Bool, true, some, List, [], ◌∷◌, ok}
use gogeta_fs_ae.File.{Answer, count}
use gogeta_fs_ae.Ageing.Main.{Config, Opt, opt_d, opt_s, opt_o, opt_p, seed_of_phase}

-- A number of one digit.
abbrev digit : List ℕ → ℕ
digit [] = 0
digit (c ∷ s) = c - b'0'

-- `-d /m/ -s 1 -o 5 -p 4`
abbrev four_opts : List Opt
four_opts =
    opt_d (b'/' ∷ b'm' ∷ b'/' ∷ []) ∷ opt_s (b'1' ∷ []) ∷ opt_o (b'5' ∷ []) ∷ opt_p (b'4' ∷ []) ∷ []

abbrev four_set : Config
four_set = record {
  dirpath = b'/' ∷ b'm' ∷ b'/' ∷ [];
  dirlen = 2;
  size_gib = some 1;
  hole_percent = some 5;
  phase = some 4;
  block_size = 0;
}

-- The seeds of the phases 2 and 4, and of the phase -1.
seeds-test :
    (seed_of_phase 2 ≡ ok 2335)
    × (seed_of_phase 4 ≡ ok 2337)
    × (seed_of_phase (2 ^ 32 - 1) ≡ ok 2332)
unfolding seed_of_phase
seeds-test = (refl, refl, refl)

-- The draws count up from the seed.
abbrev draws_up : (seed : ℕ) → ℕ → ℕ
draws_up seed i = seed + i

abbrev all_written : ℕ → Answer
all_written i = count (2 ^ 30)

abbrev all_punched : ℕ → Bool
all_punched pos = true
