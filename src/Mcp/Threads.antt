-- ===== src/Mcp/Threads.antt =====
-- mcp/src/main.cpp: the threads of main and cp_func, as steps of the main thread and of the threads
-- that it creates, in any order. A call that fails ends the program; a read gives at least a byte
-- where there is one, and a write takes at least a byte. The clock is not modelled.
pub mod Frame
pub mod Invariant
pub mod Result
pub mod Ending
pub mod Returning
pub mod Planned
use gogeta_fs_ae.Common.{
  ℕ, zero, suc, ◌+◌, ◌≤◌, ◌<◌, ◌≡◌, Bool, true, false, List, [], ◌∷◌, ◌++◌, length, take, drop, min,
  update,
}
use gogeta_fs_ae.Mcp.Copy.{Files}

abbrev pub Job : Type 0
Job = ℕ × ℕ

-- Where a thread is in the body of the loop over its jobs: before `read`, in writen with the bytes
-- that are left of the buffer, before the first `close`, before the second.
pub data Point : Type 0 where
  reading closing_src closing_dst : Point
  writing : (bytes : List ℕ) → Point

-- cp_func before its malloc, at the head of the loop over the jobs, in its body, and after it.
pub data Thread : Type 0 where
  starting at_jobs : (jobs : List Job) → Thread
  busy : (point : Point) (job : Job) (jobs : List Job) → Thread
  ended : Thread

-- It may be in a call that fails.
unfoldable pub may_fail : Thread → Bool
may_fail (starting jobs) = true
may_fail (at_jobs jobs) = false
may_fail (busy point job jobs) = true
may_fail ended = false

-- What a thread does next, and the files behind it.
pub data Move (buf_len : ℕ) (files : Files) (t : Thread) : Files → Thread → Type 0 where
  allocate : {jobs : List Job} → t ≡ starting jobs → Move buf_len files t files (at_jobs jobs)
  take_job :
      {job : Job} {jobs : List Job}
      → t ≡ at_jobs (job ∷ jobs)
      → Move buf_len files t files (busy reading job jobs)
  leave : t ≡ at_jobs [] → Move buf_len files t files ended
  read_some :
      {job : Job} {jobs : List Job} (ret : ℕ)
      → t ≡ busy reading job jobs
      → 1 ≤ ret
      → ret ≤ min buf_len (length (files.src job.0))
      → Move buf_len files t
          (record { src = update files.src job.0 (drop ret (files.src job.0)); dst = files.dst })
          (busy (writing (take ret (files.src job.0))) job jobs)
  read_end :
      {job : Job} {jobs : List Job}
      → t ≡ busy reading job jobs
      → min buf_len (length (files.src job.0)) ≡ 0
      → Move buf_len files t files (busy closing_src job jobs)
  write_some :
      {bytes : List ℕ} {job : Job} {jobs : List Job} (ret : ℕ)
      → t ≡ busy (writing bytes) job jobs
      → 1 ≤ ret
      → ret ≤ length bytes
      → Move buf_len files t
          (record {
            src = files.src;
            dst = update files.dst job.1 (files.dst job.1 ++ take ret bytes);
          })
          (busy (writing (drop ret bytes)) job jobs)
  written :
      {job : Job} {jobs : List Job}
      → t ≡ busy (writing []) job jobs
      → Move buf_len files t files (busy reading job jobs)
  close_src :
      {job : Job} {jobs : List Job}
      → t ≡ busy closing_src job jobs
      → Move buf_len files t files (busy closing_dst job jobs)
  close_dst :
      {job : Job} {jobs : List Job}
      → t ≡ busy closing_dst job jobs
      → Move buf_len files t files (at_jobs jobs)

-- The loops of main that create the threads and join them; `return 0`; and the exit of EXIT_ON.
pub data Phase : Type 0 where
  creating joining : (i : ℕ) → Phase
  returned exited : Phase

pub record System : Type 0 where
  pub phase : Phase
  pub files : Files
  pub threads : ℕ → Thread

-- `jobs[i]`, for `jobs` of which every thread has one.
unfoldable pub jobs_at : List (List Job) → ℕ → List Job
jobs_at [] i = []
jobs_at (l ∷ ls) zero = l
jobs_at (l ∷ ls) (suc i) = jobs_at ls i

module _ (buf_len : ℕ) (files : Files) (jobs : List (List Job)) where
  -- The threads that run are those below this number.
  unfoldable pub created_to : Phase → ℕ
  created_to (creating i) = i
  created_to (joining i) = length jobs
  created_to returned = length jobs
  created_to exited = 0

  pub data Step (s : System) : System → Type 0 where
    create :
        {i : ℕ}
        → s.phase ≡ creating i
        → i < length jobs
        → Step s (record { phase = creating (suc i); files = s.files; threads = s.threads })
    created_all :
        {i : ℕ}
        → s.phase ≡ creating i
        → length jobs ≤ i
        → Step s (record { phase = joining 0; files = s.files; threads = s.threads })
    join :
        {i : ℕ}
        → s.phase ≡ joining i
        → i < length jobs
        → s.threads i ≡ ended
        → Step s (record { phase = joining (suc i); files = s.files; threads = s.threads })
    joined_all :
        {i : ℕ}
        → s.phase ≡ joining i
        → length jobs ≤ i
        → Step s (record { phase = returned; files = s.files; threads = s.threads })
    thread :
        (i : ℕ) {files' : Files} {t : Thread}
        → i < created_to s.phase
        → Move buf_len s.files (s.threads i) files' t
        → Step s (record { phase = s.phase; files = files'; threads = update s.threads i t })
    -- the program ends with 1
    fail :
        (i : ℕ)
        → i < created_to s.phase
        → may_fail (s.threads i) ≡ true
        → Step s (record { phase = exited; files = s.files; threads = s.threads })

  abbrev pub init : System
  init = record { phase = creating 0; files = files; threads = λ i. starting (jobs_at jobs i) }

  -- The states after `n` steps.
  pub data Reach : ℕ → System → Type 0 where
    start : Reach 0 init
    later : {n : ℕ} {s s' : System} → Reach n s → Step s s' → Reach (suc n) s'
