-- ===== src/Mcp/Jobs.antt =====
-- mcp/src/main.cpp: struct FileWork, and the part of main that assigns the files to the threads: each
-- file goes to the thread with the least bytes so far. The order in which std::sort leaves the files
-- is a parameter; std::priority_queue is the list of its pairs, of which top is the least.
pub mod Loads
pub mod Rounds
pub mod Balance
use gogeta_fs_ae.Common.{
  ℕ, zero, suc, ◌+◌, ◌%◌, ◌^◌, Bool, ◌&&◌, ◌||◌, Option, none, some, List, [], ◌∷◌, ◌++◌, ltb, ◌==◌,
  get_elem?, set, replicate, Result, ok, ◌>>=◌, read, if◌then◌else◌,
}

pub record FileWork : Type 0 where
  pub size : ℕ
  pub src_fd : ℕ
  pub dst_fd : ℕ

-- A pair<size_t, int>: the bytes that a thread has, and the thread.
abbrev pub Load : Type 0
Load = ℕ × ℕ

-- The order of pairs.
unfoldable pub less : Load → Load → Bool
less x y = ltb x.0 y.0 || (x.0 == y.0 && ltb x.1 y.1)

-- `pq.top(); pq.pop();`, which is undefined if the queue is empty.
unfoldable pub pop_least : List Load → Option (Load × List Load)
pop_least [] = none
pop_least (x ∷ q) = elim (pop_least q) [
  | none ↦ some (x, [])
  | some (y, rest) ↦ if less y x then some (y, x ∷ rest) else some (x, q)
]

pub record Plan : Type 0 where
  pub pq : List Load
  -- `jobs`: the descriptors of each thread's files
  pub jobs : List (List (ℕ × ℕ))

-- The loop that fills the queue, for `n` threads from thread `i`.
unfoldable pub start_loads : (n i : ℕ) → List Load
start_loads zero i = []
start_loads (suc n) i = (0, i) ∷ start_loads n (suc i)

unfoldable pub start_plan : ℕ → Plan
start_plan thread_num = record { pq = start_loads thread_num 0; jobs = replicate thread_num [] }

-- One round of the loop over the files; a size_t has 64 bits.
unfoldable pub assign_work : Plan → FileWork → Result Plan
assign_work p work = do
  (least, rest) ← read (pop_least p.pq)
  job ← read (get_elem? p.jobs least.1)
  ok (record {
    pq = ((least.0 + work.size) % 2 ^ 64, least.1) ∷ rest;
    jobs = set p.jobs least.1 (job ++ (work.src_fd, work.dst_fd) ∷ []);
  })

unfoldable pub assign_works : Plan → List FileWork → Result Plan
assign_works p [] = ok p
assign_works p (work ∷ files) = do p' ← assign_work p work; assign_works p' files

-- `sort(files.begin(), files.end())` and what follows it.
unfoldable pub plan_jobs : (List FileWork → List FileWork) → ℕ → List FileWork → Result Plan
plan_jobs sort thread_num files = assign_works (start_plan thread_num) (sort files)
