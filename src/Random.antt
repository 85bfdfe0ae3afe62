-- ===== src/Random.antt =====
-- nvm_tools-J/helper/replay.c: the wrappers of the random generators and the generator that
-- assign_params_per_worker gives a worker, and lcg_rand_r of nvm_tools-J/helper/lcg.c. The C library's
-- rand_r and mt19937ar are parameters. Ints are given by their 32 bits.
use gogeta_fs_ae.Common.{ℕ, ◌+◌, ◌*◌, ◌%◌, ◌^◌, ◌≡◌, ◌<◌, refl, Option, none, some, arith}
use gogeta_fs_ae.Fill.{RandGener}
use gogeta_fs_ae.Fill.Content.{Reseeds}

-- RANDOM_NULL, RANDOM_MT19937AR, RANDOM_STDLIB, RANDOM_LCG
pub data GenerType : Type 0 where
  random_null random_mt19937ar random_stdlib random_lcg : GenerType

-- The product wraps at 32 bits, and `& RAND_MAX` keeps 31.
unfoldable pub lcg_rand_r : ℕ → ℕ
lcg_rand_r rseed_r = (rseed_r * 1103515245 + 12345) % 2 ^ 32 % 2 ^ 31

-- The value is the new state as well.
unfoldable pub lcg_gener : RandGener ℕ
unfolding lcg_rand_r
lcg_gener = record { fedseed = λ ctx s. s; genrandom = λ ctx. (lcg_rand_r ctx, lcg_rand_r ctx) }

-- Every number of the generator has 31 bits, and it is determined by the low 31 bits of the state.
pub lcg_rand_r-low_bits :
    (s s' : ℕ) → s % 2 ^ 31 ≡ s' % 2 ^ 31 → (lcg_rand_r s ≡ lcg_rand_r s') × (lcg_rand_r s < 2 ^ 31)
unfolding lcg_rand_r
lcg_rand_r-low_bits s s' h = (omega (arith, h), omega arith)

-- mt19937ar.h: a state, its seeding and its next number.
pub record Mt19937ar : Type 1 where
  pub State : Type 0
  pub init_genrand_r : State → ℕ → State
  pub genrand_int32_r : State → State × ℕ

-- rand_r: the seed that it leaves, and its number.
module _ (mt : Mt19937ar) (rand_r : ℕ → ℕ × ℕ) where
  open mt use {State, init_genrand_r, genrand_int32_r}

  -- `*(int *)ctx = rand_r(ctx)`
  unfoldable pub stdlib_gener : RandGener ℕ
  stdlib_gener = record {
    fedseed = λ ctx s. s;
    genrandom = λ ctx. ((rand_r ctx).1, (rand_r ctx).1);
  }

  unfoldable pub mt19937ar_gener : RandGener State
  mt19937ar_gener = record { fedseed = init_genrand_r; genrandom = genrand_int32_r }

  -- What `ctx` points to.
  abbrev pub Ctx : GenerType → Type 0
  Ctx random_null = Unit
  Ctx random_mt19937ar = State
  Ctx random_stdlib = ℕ
  Ctx random_lcg = ℕ

  -- The switch on `rand_gener_type`.
  unfoldable pub gener_of : (k : GenerType) → Option (RandGener (Ctx k))
  unfolding stdlib_gener mt19937ar_gener lcg_gener
  gener_of random_null = none
  gener_of random_mt19937ar = some mt19937ar_gener
  gener_of random_stdlib = some stdlib_gener
  gener_of random_lcg = some lcg_gener

  -- Whatever generator is chosen, seeding it forgets its state, if init_genrand_r sets the whole state
  -- of mt19937ar by its seed. So the content of a block depends on its digest alone.
  pub gener_of-Reseeds :
      ((st st' : State) (s : ℕ) → init_genrand_r st s ≡ init_genrand_r st' s)
      → (k : GenerType) → Reseeds (gener_of k)
  unfolding gener_of
  gener_of-Reseeds seeds random_null = tt
  gener_of-Reseeds seeds random_mt19937ar = seeds
  gener_of-Reseeds seeds random_stdlib = λ ctx ctx' s. refl
  gener_of-Reseeds seeds random_lcg = λ ctx ctx' s. refl
