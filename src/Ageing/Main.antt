-- ===== src/Ageing/Main.antt =====
-- nvm_tools-J/helper/aging_system.c: main. An option is what getopt returns: its letter, and optarg, the
-- list of its characters before the NUL. atoi and atol are parameters. A variable that no option sets
-- has no value: what the code reads there is undefined, and an error here. A percentage that becomes
-- an unsigned long keeps its sign. The names of the files are not modelled.
pub mod Whole
use gogeta_fs_ae.Common.{
  ℕ, ◌+◌, ◌-◌, ◌*◌, ◌^◌, Bool, false, ◌&&◌, ◌||◌, Option, none, some, List, [], ◌∷◌, ltb, ◌==◌,
  length, Result, ok, err, exited, int_overflow, out_of_bounds, read, ◌>>=◌, if◌then◌else◌,
}
use gogeta_fs_ae.File.{Answer}
use gogeta_fs_ae.Ageing.{Aged, Kernel, age}

-- The variables that the options set.
pub record Config : Type 0 where
  pub dirpath : List ℕ
  pub dirlen : ℕ
  pub size_gib : Option ℕ
  pub hole_percent : Option ℕ
  pub phase : Option ℕ
  pub block_size : ℕ

abbrev pub initial : Config
initial = record {
  dirpath = [];
  dirlen = 0;
  size_gib = none;
  hole_percent = none;
  phase = none;
  block_size = 0;
}

-- The letters of "d:s:b:o:p:h" with their arguments; `unknown` is any other.
pub data Opt : Type 0 where
  opt_d opt_s opt_b opt_o opt_p : List ℕ → Opt
  opt_h unknown : Opt

-- `optarg[dirlen - 1] == '/'`
unfoldable pub ends_in_slash : List ℕ → Bool
ends_in_slash [] = false
ends_in_slash (c ∷ []) = c == b'/'
ends_in_slash (c ∷ d ∷ s) = ends_in_slash (d ∷ s)

-- The array has 128 characters, the NUL included. `dirlen` is where "/file1" goes.
unfoldable pub set_directory : Config → List ℕ → Result Config
set_directory c s =
    let n = length s in
    if ltb n 128
    then ok (record c { dirpath = s; dirlen = if ltb 1 n && ends_in_slash s then n - 1 else n })
    else err out_of_bounds

module _ (atoi atol : List ℕ → ℕ) where
  unfoldable pub set_option : Config → Opt → Result Config
  set_option c (opt_d s) = set_directory c s
  set_option c (opt_s s) = ok (record c { size_gib = some (atol s) })
  set_option c (opt_b s) = ok (record c { block_size = atol s })
  set_option c (opt_o s) =
      let i : ℕ = atoi s in
      ok (record c { hole_percent = some (if ltb i (2 ^ 31) then i else i + (2 ^ 64 - 2 ^ 32)) })
  set_option c (opt_p s) = ok (record c { phase = some (atoi s) })
  set_option c opt_h = err (exited 1)
  set_option c unknown = err (exited 1)

  unfoldable pub set_options : Config → List Opt → Result Config
  set_options c [] = ok c
  set_options c (o ∷ opts) = do c' ← set_option c o; set_options c' opts

-- 2M by default
unfoldable pub block_size_of : Config → ℕ
block_size_of c = if c.block_size == 0 then 2 * 1024 * 1024 else c.block_size

-- The percentage is read in the phases 2, 3 and 4 only.
unfoldable pub holes_of : Config → (phase : ℕ) → Result ℕ
holes_of c phase = if phase == 2 || (phase == 3 || phase == 4) then read c.hole_percent else ok 0

-- MAGIC_RAND
abbrev pub magic_rand : ℕ
magic_rand = 2333

-- `MAGIC_RAND + phase`, a sum of ints, as the unsigned long that init_genrand takes.
unfoldable pub seed_of_phase : (phase : ℕ) → Result ℕ
seed_of_phase phase =
    if ltb phase (2 ^ 31)
    then (if ltb (magic_rand + phase) (2 ^ 31) then ok (magic_rand + phase) else err int_overflow)
    else (if ltb (magic_rand + phase) (2 ^ 32)
        then ok (magic_rand + phase + (2 ^ 64 - 2 ^ 32))
        else ok (magic_rand + phase - 2 ^ 32))

-- `draws` are the numbers of genrand_int32 after init_genrand with a seed; the others are the answers to
-- the calls.
module _ (draws : (seed : ℕ) → ℕ → ℕ) (fill_answers refill_answers : ℕ → Answer)
    (fallocate_works : ℕ → Bool) (fuel : ℕ) where
  -- The system as a phase finds it, after init_genrand.
  abbrev pub seeded : (seed : ℕ) → Kernel
  seeded seed = record {
    fill_answers = fill_answers;
    refill_answers = refill_answers;
    rand = draws seed;
    fallocate_works = fallocate_works;
  }

  -- main behind its options.
  unfoldable pub run_phase : Config → Aged → Result Aged
  run_phase c files = do
    size_gib ← read c.size_gib
    phase ← read c.phase
    seed ← seed_of_phase phase
    hole_percent ← holes_of c phase
    age (seeded seed) fuel size_gib (block_size_of c) hole_percent phase files

  unfoldable pub main : (atoi atol : List ℕ → ℕ) → List Opt → Aged → Result Aged
  main atoi atol opts files = do c ← set_options atoi atol initial opts; run_phase c files
