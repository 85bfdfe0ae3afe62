-- ===== src/Interference/Main/Duplicates.antt =====
-- Two calls of the program: the first prepares the blocks that the readers of the second write.
use gogeta_fs_ae.Common.{
  ℕ, ◌+◌, ◌*◌, ◌/◌, ◌%◌, ◌^◌, ◌≤◌, ◌<◌, ◌≡◌, none, some, List, [], ◌∷◌, ◌++◌, map, flat, All,
  length, ok,
}
use gogeta_fs_ae.File.{Answer, count}
use gogeta_fs_ae.Interference.{Written}
use gogeta_fs_ae.Interference.Tasks.{blocks_of, Ranges}
use gogeta_fs_ae.Interference.Content.{whole_blocks, Holds}
use gogeta_fs_ae.Interference.Main.{Config, Opt, opt_s, RunCall, main}

-- The options that main needs, and their bounds.
pub record Given (c : Config) : Type 0 where
  pub granularity : ℕ
  pub total_io : ℕ
  pub reader_num : ℕ
  pub writer_num : ℕ
  pub has_granularity : c.granularity ≡ some granularity
  pub has_total_io : c.total_io ≡ some total_io
  pub has_reader_num : c.reader_num ≡ some reader_num
  pub has_writer_num : c.writer_num ≡ some writer_num
  pub some_byte : 1 ≤ granularity
  pub whole_words : granularity % 8 ≡ 0
  pub some_task : 1 ≤ reader_num + writer_num
  pub few_tasks : reader_num + writer_num < 2 ^ 32
  pub few_blocks : total_io * 2 ^ 30 % 2 ^ 64 / granularity < 2 ^ 62

module _ (malloc : (calls size : ℕ) → List ℕ)
    (gives : (calls size : ℕ) → length (malloc calls size) ≡ size) (answers : ℕ → Answer)
    (quarter : ℕ → ℕ) (within : (n : ℕ) → quarter n ≤ n) (atoi atol : List ℕ → ℕ) (c : Config)
    (given : Given c) where
  abbrev pub total : ℕ
  total = given.total_io * 2 ^ 30 % 2 ^ 64 / given.granularity

  module _ (whole : (k : ℕ) → (n : ℕ) × (answers k ≡ count n) × (given.granularity ≤ n)) where
    -- What the two calls do, for a call of `run` whose files begin at the answer `calls`.
    pub record Duplicates (opts : List Opt) (prepare_only run_only : List ℕ) (calls : ℕ)
        : Type 0 where
      pub files : List Written
      pub call : RunCall
      pub in_directory : call.dirpath ≡ c.dirpath
      pub with_granularity : call.granularity ≡ given.granularity
      pub measures : call.measurement_object ≡ c.measurement_object
      pub ranges : Ranges given.reader_num given.writer_num total call.task_list
      pub first :
          main malloc answers quarter atoi atol (opts ++ opt_s prepare_only ∷ [])
          ≡ ok (record { prepared = some (c.dirpath, files); running = none })
      pub second :
          main malloc answers quarter atoi atol (opts ++ opt_s run_only ∷ [])
          ≡ ok (record { prepared = none; running = some call })
      pub prepared :
          flat (map (λ w. w.blocks) files)
          ≡ whole_blocks given.granularity 0 (blocks_of call.task_list)
      pub no_rest : All (λ w. w.behind ≡ []) files
      pub readers_old :
          All
            (Holds given.granularity answers whole malloc gives given.whole_words
              (λ m. m < blocks_of call.task_list)
              calls)
            ranges.readers
      pub writers_new :
          All
            (Holds given.granularity answers whole malloc gives given.whole_words
              (λ m. blocks_of call.task_list ≤ m)
              calls)
            ranges.writers
