-- ===== src/Ageing/Main/Whole.antt =====
-- The program called with phase 4: main behind its options, with the seed that it takes.
use gogeta_fs_ae.Common.{ℕ, ◌*◌, ◌^◌, ◌≤◌, ◌<◌, ◌≡◌, Bool, some}
use gogeta_fs_ae.File.{Answer}
use gogeta_fs_ae.Ageing.{Kernel, size, total}
use gogeta_fs_ae.Ageing.Whole.{Obliging}
use gogeta_fs_ae.Ageing.Main.{Config, block_size_of, seeded}

module _ (draws : (seed : ℕ) → ℕ → ℕ) (fill_answers refill_answers : ℕ → Answer)
    (fallocate_works : ℕ → Bool) (fuel : ℕ) (c : Config) {g o : ℕ} (has_size : c.size_gib ≡ some g)
    (has_holes : c.hole_percent ≡ some o) (has_phase : c.phase ≡ some 4) where
  abbrev system : Kernel
  system = seeded draws fill_answers refill_answers fallocate_works fuel 2337

  module _ (m gap : ℕ) (good : Obliging system (block_size_of c))
      (pages : m * 4096 ≡ block_size_of c) (some_pages : 1 ≤ m)
      (small : block_size_of c < 2 ^ 31) where
    abbrev bytes : ℕ
    bytes = size system fuel g (block_size_of c) o

    abbrev all_pages : ℕ
    all_pages = total system fuel g (block_size_of c) o
