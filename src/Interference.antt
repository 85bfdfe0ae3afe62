-- ===== src/Interference.antt =====
-- nvm_tools-J/helper/rw_interference.cpp: readers write blocks that the preparation has already
-- written, writers write new ones. A block is named by the magic number in its words; where the
-- granularity is no multiple of 8, what malloc left behind the words is written too.
-- `quarter` is the product with the double 1.0 / 4.0, truncated. An unsigned long has 64 bits and an
-- unsigned int 32.
pub mod Tasks
pub mod Content
pub mod Threads
pub mod Main
use gogeta_fs_ae.File.{Answer, count, failed}
use gogeta_fs_ae.Common.{
  min, map, ℕ, zero, suc, ◌+◌, ◌-◌, ◌*◌, ◌/◌, ◌%◌, ◌^◌, Bool, true, false, Option, none, some, List,
  [], ◌∷◌, ◌++◌, drop, ltb, ◌==◌, length, replicate, Result, ok, err, exited, div_by_zero, ◌>>=◌,
  ◌>>◌, if◌then◌else◌,
}

-- rw_interf_task_t
pub record Task : Type 0 where
  pub start_magic : ℕ
  pub num_blocks : ℕ
  pub progress : ℕ
  pub id : ℕ
  pub dup : Bool

-- MO_READ_LAT and MO_WRITE_LAT; main takes any other int too.
abbrev pub mo_read_lat : ℕ
mo_read_lat = 1

abbrev pub mo_write_lat : ℕ
mo_write_lat = 2

-- The loops over the tasks of one kind, for `n` tasks from task `i`: `magic` is `start_magic`.
unfoldable pub add_tasks : (n i magic num_blocks : ℕ) → Bool → List Task
add_tasks zero i magic num_blocks dup = []
add_tasks (suc n) i magic num_blocks dup =
    record { start_magic = magic; num_blocks = num_blocks; progress = 0; id = i; dup = dup }
    ∷ add_tasks n (suc i) ((magic + num_blocks) % 2 ^ 64) num_blocks dup

-- `num == 0 ? 0 : total / num`
unfoldable pub share : (total num : ℕ) → ℕ
share total num = if num == 0 then 0 else total / num

module _ (quarter : ℕ → ℕ) where
  -- The blocks for all readers and for all writers.
  unfoldable pub split_blocks : (reader_num writer_num total measurement : ℕ) → ℕ × ℕ
  split_blocks reader_num writer_num total measurement =
      if reader_num == 0
      then (0, total)
      else (if writer_num == 0
          then (total, 0)
          else (if measurement == mo_read_lat
              then (quarter total, total - quarter total)
              else (total - quarter total, quarter total)))

  -- `none` is the return of -1; malloc finds memory here.
  unfoldable pub make_tasks : (reader_num writer_num total measurement : ℕ) → Option (List Task)
  make_tasks reader_num writer_num total measurement =
      let num_tasks : ℕ = (reader_num + writer_num) % 2 ^ 32 in
      let blocks = split_blocks reader_num writer_num total measurement in
      let readers = add_tasks reader_num 0 0 (share blocks.0 reader_num) true in
      let writers = add_tasks writer_num reader_num total (share blocks.1 writer_num) false in
      if num_tasks == 0 then none else some (readers ++ writers)

-- `total_io * 1024 * 1024 * 1024 / granularity`
unfoldable pub total_blocks : (total_io granularity : ℕ) → Result ℕ
total_blocks total_io granularity =
    if granularity == 0 then err div_by_zero else ok (total_io * 2 ^ 30 % 2 ^ 64 / granularity)

-- A file as it was written. A block is given by the magic number in its `granularity / 8` words, and by
-- how many of its bytes the call of write transferred. `behind` are the bytes of the buffer behind the
-- words, which the loop does not fill: they are malloc's, and the same in every block of the file.
pub record Written : Type 0 where
  pub blocks : List (ℕ × ℕ)
  pub behind : List ℕ
  -- `*progress`, and the system calls made
  pub progress : ℕ
  pub calls : ℕ

module _ (answers : ℕ → Answer) (granularity : ℕ) where
  -- `for (block = 0; block < num_blocks; block++)`, for `n` blocks from `block`; false is the return
  -- of -1. What write returns is only tested for being negative.
  unfoldable pub write_blocks : (n block start_magic : ℕ) → Written → Written × Bool
  write_blocks zero block start_magic w = (w, true)
  write_blocks (suc n) block start_magic w = elim (answers w.calls) [
    | failed ↦ (w, false)
    | count k ↦ write_blocks n (suc block) start_magic (record w {
      blocks = w.blocks ++ ((start_magic + block) % 2 ^ 64, min k granularity) ∷ [];
      progress = suc block;
      calls = suc w.calls;
    })
  ]

-- `malloc` is what the memory holds that malloc gives after `calls` writes: `size` bytes.
module _ (malloc : (calls size : ℕ) → List ℕ) (answers : ℕ → Answer) (granularity : ℕ) where
  -- open and malloc succeed here.
  unfoldable pub make_file : (num_blocks start_magic calls : ℕ) → Written × Bool
  make_file num_blocks start_magic calls =
      write_blocks answers granularity num_blocks 0 start_magic (record {
        blocks = [];
        behind = drop (granularity / 8 * 8) (malloc calls granularity);
        progress = 0;
        calls = calls;
      })

  -- The loop over the tasks: the files `pre-0`, `pre-1` and so on.
  unfoldable pub prepare_files : List Task → (start_magic calls : ℕ) → List Written
  prepare_files [] start_magic calls = []
  prepare_files (task ∷ tasks) start_magic calls =
      let file = (make_file task.num_blocks start_magic calls).0 in
      file ∷ prepare_files tasks ((start_magic + task.num_blocks) % 2 ^ 64) file.calls

  unfoldable pub prepare_workload : List Task → List Written
  prepare_workload tasks = prepare_files tasks 0 0

  -- The file of one task in the second stage.
  unfoldable pub dedup_or_write_task : Task → (calls : ℕ) → Written × Bool
  dedup_or_write_task task calls = make_file task.num_blocks task.start_magic calls
