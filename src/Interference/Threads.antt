-- ===== src/Interference/Threads.antt =====
-- nvm_tools-J/helper/rw_interference.cpp: run, as steps of the main thread and of the threads that it
-- creates, in any order. malloc and pthread_create succeed here, and the clock is not modelled.
pub mod Moves
pub mod Invariant
pub mod Result
pub mod Created
pub mod Ending
pub mod Returning
use gogeta_fs_ae.Common.{
  ℕ, zero, suc, ◌+◌, ◌%◌, ◌^◌, ◌≤◌, ◌<◌, ◌≡◌, Bool, true, false, List, [], ◌∷◌, ◌==◌, length,
  if◌then◌else◌, update,
}
use gogeta_fs_ae.Interference.{Task, mo_read_lat, mo_write_lat}

-- A thread: not yet created, created (its parameter is still to be read), before the test of the loop
-- in make_file with `block` blocks written, ended with 0 or with -1, ended at a cancellation point.
pub data Status : Type 0 where
  absent created ended gave_up stopped : Status
  writing : (block : ℕ) → Status

pub record Thread : Type 0 where
  pub status : Status
  -- `rw_task_param->progress`
  pub progress : ℕ
  -- pthread_cancel was called for it
  pub cancelled : Bool

-- What pthread_join waits for.
unfoldable pub is_over : Status → Bool
is_over ended = true
is_over gave_up = true
is_over stopped = true
is_over _ = false

-- What a thread does next, for a task of `num_blocks` blocks: it reads its parameter, writes a block,
-- leaves the loop, returns -1 where open, malloc or write fails, or follows a pthread_cancel.
pub data Move (num_blocks : ℕ) (t : Thread) : Thread → Type 0 where
  begin :
      t.status ≡ created
      → Move num_blocks t
          (record { status = writing 0; progress = t.progress; cancelled = t.cancelled })
  write_one :
      {block : ℕ}
      → t.status ≡ writing block
      → block < num_blocks
      → Move num_blocks t
          (record { status = writing (suc block); progress = suc block; cancelled = t.cancelled })
  leave :
      {block : ℕ}
      → t.status ≡ writing block
      → num_blocks ≤ block
      → Move num_blocks t
          (record { status = ended; progress = t.progress; cancelled = t.cancelled })
  give_up :
      {block : ℕ}
      → t.status ≡ writing block
      → Move num_blocks t
          (record { status = gave_up; progress = t.progress; cancelled = t.cancelled })
  stop :
      {block : ℕ}
      → t.status ≡ writing block
      → t.cancelled ≡ true
      → Move num_blocks t
          (record { status = stopped; progress = t.progress; cancelled = t.cancelled })

-- The loops of run: over the threads to create, to join and to cancel, and over the progress of those
-- that were joined. After `returned` the parameters are freed.
pub data Phase : Type 0 where
  creating joining cancelling : (i : ℕ) → Phase
  summing : (i total_processed_blocks : ℕ) → Phase
  returned : (total_processed_blocks : ℕ) → Phase

pub record System : Type 0 where
  pub phase : Phase
  pub threads : ℕ → Thread

unfoldable pub num_readers : List Task → ℕ
num_readers [] = 0
num_readers (task ∷ tasks) = (if task.dup then 1 else 0) + num_readers tasks

-- `task_list[i]`'s blocks and progress.
unfoldable pub num_blocks_at : List Task → ℕ → ℕ
num_blocks_at [] i = 0
num_blocks_at (task ∷ tasks) zero = task.num_blocks
num_blocks_at (task ∷ tasks) (suc i) = num_blocks_at tasks i

unfoldable pub progress_at : List Task → ℕ → ℕ
progress_at [] i = 0
progress_at (task ∷ tasks) zero = task.progress
progress_at (task ∷ tasks) (suc i) = progress_at tasks i

-- The bounds of the loops that join and sum, and of the loop that cancels.
unfoldable pub targets : (measurement readers num_tasks : ℕ) → ℕ × ℕ
targets measurement readers num_tasks =
    if measurement == mo_read_lat
    then (0, readers)
    else (if measurement == mo_write_lat then (readers, num_tasks) else (0, 0))

unfoldable pub others : (measurement readers num_tasks : ℕ) → ℕ × ℕ
others measurement readers num_tasks =
    if measurement == mo_read_lat
    then (readers, num_tasks)
    else (if measurement == mo_write_lat then (0, readers) else (0, 0))

module _ (tasks : List Task) (measurement : ℕ) where
  abbrev pub joined_range : ℕ × ℕ
  joined_range = targets measurement (num_readers tasks) (length tasks)

  abbrev pub cancelled_range : ℕ × ℕ
  cancelled_range = others measurement (num_readers tasks) (length tasks)

  pub data Step (s : System) : System → Type 0 where
    create :
        {i : ℕ}
        → s.phase ≡ creating i
        → i < length tasks
        → Step s (record {
          phase = creating (suc i);
          threads =
              update s.threads i
                (record { status = created; progress = (s.threads i).progress; cancelled = false });
        })
    created_all :
        {i : ℕ}
        → s.phase ≡ creating i
        → length tasks ≤ i
        → Step s (record { phase = joining joined_range.0; threads = s.threads })
    join :
        {i : ℕ}
        → s.phase ≡ joining i
        → i < joined_range.1
        → is_over (s.threads i).status ≡ true
        → Step s (record { phase = joining (suc i); threads = s.threads })
    joined_all :
        {i : ℕ}
        → s.phase ≡ joining i
        → joined_range.1 ≤ i
        → Step s (record { phase = cancelling cancelled_range.0; threads = s.threads })
    cancel :
        {i : ℕ}
        → s.phase ≡ cancelling i
        → i < cancelled_range.1
        → Step s (record {
          phase = cancelling (suc i);
          threads = update s.threads i (record {
            status = (s.threads i).status;
            progress = (s.threads i).progress;
            cancelled = true;
          });
        })
    cancelled_all :
        {i : ℕ}
        → s.phase ≡ cancelling i
        → cancelled_range.1 ≤ i
        → Step s (record { phase = summing joined_range.0 0; threads = s.threads })
    add :
        {i total : ℕ}
        → s.phase ≡ summing i total
        → i < joined_range.1
        → Step s (record {
          phase = summing (suc i) ((total + (s.threads i).progress) % 2 ^ 64);
          threads = s.threads;
        })
    added_all :
        {i total : ℕ}
        → s.phase ≡ summing i total
        → joined_range.1 ≤ i
        → Step s (record { phase = returned total; threads = s.threads })
    thread :
        (i : ℕ) {t : Thread}
        → i < length tasks
        → Move (num_blocks_at tasks i) (s.threads i) t
        → Step s (record { phase = s.phase; threads = update s.threads i t })

  abbrev pub init : System
  init = record {
    phase = creating 0;
    threads = λ i. record { status = absent; progress = progress_at tasks i; cancelled = false };
  }

  -- The states after `n` steps.
  pub data Reach : ℕ → System → Type 0 where
    start : Reach 0 init
    later : {n : ℕ} {s s' : System} → Reach n s → Step s s' → Reach (suc n) s'
