-- ===== src/Fill.antt =====
-- nvm_tools-J/helper/replay.c: fill_blk, which makes a block's content from the digest of a trace,
-- and rand_gener_t. A generator has a state `Ctx`; `none` is the pair of NULL functions.
pub mod Block
pub mod Content
pub mod Overrun
use gogeta_fs_ae.Common.{
  ℕ, zero, suc, ◌+◌, ◌*◌, ◌/◌, ◌%◌, ◌^◌, Option, none, some, true, false, List, [], ◌∷◌, ◌++◌, take,
  drop, length, ltb, ◌==◌, Result, ok, err, out_of_bounds, out_of_fuel, div_by_zero, ◌>>=◌,
  if◌then◌else◌,
}
use gogeta_fs_ae.Buffer.{write_bytes, bytes_of_u32}

abbrev pub blk_size : ℕ
blk_size = 4096

pub record RandGener (Ctx : Type 0) : Type 0 where
  pub fedseed : Ctx → ℕ → Ctx
  pub genrandom : Ctx → Ctx × ℕ

-- `for (int j = 0; j < blk_size_per_step; j += 32) memcpy(blk + j, md5, 32);`
unfoldable pub copy_digest : ℕ → List ℕ → (blk j per_step : ℕ) → List ℕ → Result (List ℕ)
copy_digest zero buf blk j per_step chunk = err out_of_fuel
copy_digest (suc f) buf blk j per_step chunk = elim (ltb j per_step) [
  | false ↦ ok buf
  | true ↦ do buf' ← write_bytes buf (blk + j) chunk; copy_digest f buf' blk (j + 32) per_step chunk
]

-- `*(uint32_t *)md5`
unfoldable pub seed_of : List ℕ → ℕ
seed_of [] = 0
seed_of (b ∷ bs) = b + 256 * seed_of bs

module _ {Ctx : Type 0} where
  -- `for (int j = 0; j < blk_size_per_step; j += sizeof(uint32_t)) ...`
  unfoldable pub copy_random :
      ℕ → RandGener Ctx → Ctx → List ℕ → (blk j per_step : ℕ) → Result (List ℕ × Ctx)
  copy_random zero g ctx buf blk j per_step = err out_of_fuel
  copy_random (suc f) g ctx buf blk j per_step = elim (ltb j per_step) [
    | false ↦ ok (buf, ctx)
    | true ↦
        let next = g.genrandom ctx in
        do
          buf' ← write_bytes buf (blk + j) (bytes_of_u32 next.1)
          copy_random f g next.0 buf' blk (j + 4) per_step
  ]

  -- The body of the loop over the steps.
  unfoldable pub fill_step :
      Option (RandGener Ctx) → Ctx → List ℕ → (blk per_step : ℕ) → List ℕ → Result (List ℕ × Ctx)
  fill_step none ctx buf blk per_step md5 =
      copy_digest (suc blk_size) buf blk 0 per_step (take 32 md5) >>= λ buf'. ok (buf', ctx)
  fill_step (some g) ctx buf blk per_step md5 =
      copy_random (suc blk_size) g (g.fedseed ctx (seed_of (take 4 md5))) buf blk 0 per_step

  -- `for (int i = 0; i < step; i++, blk += blk_size_per_step, md5 += 32)`, with `n` rounds left.
  unfoldable pub fill_steps :
      ℕ
      → Option (RandGener Ctx)
      → Ctx
      → List ℕ
      → (blk per_step : ℕ) → List ℕ
      → Result (List ℕ × Ctx)
  fill_steps zero g ctx buf blk per_step md5 = ok (buf, ctx)
  fill_steps (suc n) g ctx buf blk per_step md5 = fill_step g ctx buf blk per_step md5 >>= λ done.
      fill_steps n g done.1 done.0 (blk + per_step) per_step (drop 32 md5)

  -- `md5` is the string's bytes, so its length is the caller's strlen. `BLK_SIZE / step` traps at 0.
  unfoldable pub fill_blk :
      Option (RandGener Ctx) → Ctx → List ℕ → (blk : ℕ) → List ℕ → Result (List ℕ × Ctx)
  fill_blk g ctx buf blk md5 =
      let step : ℕ = length md5 / 32 in
      if step == 0 then err div_by_zero else fill_steps step g ctx buf blk (blk_size / step) md5
