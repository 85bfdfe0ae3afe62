-- ===== src/Tests/Filling.antt =====
-- Blocks.
use gogeta_fs_ae.Common.{
  ℕ, ◌≡◌, inl, inr, refl, [], ◌∷◌, ◌++◌, none, length, ok, err, div_by_zero, out_of_bounds, arith,
  replicate,
}
use gogeta_fs_ae.Fill.{blk_size, fill_blk}
use gogeta_fs_ae.Fill.Content.{digest_block, fill_blk-digest_block}
use gogeta_fs_ae.Fill.Overrun.{fill_blk-short, fill_blk-overruns}

fill_blk-digest_block_example :
    (length (digest_block {Ctx = ℕ} none 0 (replicate 64 b'a')) ≡ blk_size)
    × ((ctx' : ℕ) × (fill_blk none 5
            ((1 ∷ 2 ∷ []) ++ (replicate 4096 0 ++ (3 ∷ [])))
            2
            (replicate 64 b'a')
          ≡ ok (
            (1 ∷ 2 ∷ []) ++ (digest_block {Ctx = ℕ} none 0 (replicate 64 b'a') ++ (3 ∷ [])),
            ctx',
          )))
fill_blk-digest_block_example =
    fill_blk-digest_block none 0 (replicate 64 b'a') tt (inr (inl refl)) 5 (1 ∷ 2 ∷ [])
      (replicate 4096 0) (3 ∷ []) refl

short_digest-test :
    fill_blk {Ctx = ℕ} none 0 (replicate 4096 0) 0 (replicate 31 b'a') ≡ err div_by_zero
short_digest-test = fill_blk-short none 0 (replicate 4096 0) 0 (replicate 31 b'a') (omega arith)

fill_blk-overruns_example :
    fill_blk {Ctx = ℕ} none 0 (replicate 4096 0) 0 (replicate 96 b'a') ≡ err out_of_bounds
fill_blk-overruns_example =
    fill_blk-overruns 0 (replicate 4096 0) 0 (replicate 96 b'a') refl (inl refl)
