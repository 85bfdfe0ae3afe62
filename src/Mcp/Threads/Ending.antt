-- ===== src/Mcp/Threads/Ending.antt =====
-- Every schedule of the threads ends.
use gogeta_fs_ae.Common.{
  ℕ, suc, ◌+◌, ◌-◌, ◌*◌, ◌≤◌, ◌<◌, ◌≡◌, ap, sym, subst, ◌∙◌, List, [], ◌∷◌, ◌++◌, flat, drop,
  length, length-append, length-take, length-drop, update, update-each, update-same, span, span-lt,
  arith,
}
use gogeta_fs_ae.Mcp.Copy.{Files}
use gogeta_fs_ae.Mcp.Threads.{
  Job, reading, closing_src, closing_dst, writing, Thread, starting, at_jobs, busy, ended, Move,
  allocate, take_job, leave, read_some, read_end, write_some, written, close_src, close_dst, Phase,
  creating, joining, returned, exited, System, jobs_at, created_to, Step, create, created_all, join,
  joined_all, thread, fail, init, Reach, start, later,
}

-- The steps that the jobs of a thread can still take.
abbrev work : Files → List Job → ℕ
work files [] = 1
work files (job ∷ jobs) = 3 * length (files.src job.0) + 4 + work files jobs

abbrev rank : Files → Thread → ℕ
rank files (starting jobs) = work files jobs + 1
rank files (at_jobs jobs) = work files jobs
rank files (busy reading job jobs) = 3 * length (files.src job.0) + 3 + work files jobs
rank files (busy (writing bytes) job jobs) =
    3 * length (files.src job.0) + length bytes + 4 + work files jobs
rank files (busy closing_src job jobs) = 2 + work files jobs
rank files (busy closing_dst job jobs) = 1 + work files jobs
rank files ended = 0

-- What is left to be read gets no longer.
abbrev Shorter : Files → Files → Type 0
Shorter files files' = (fd : ℕ) → length (files'.src fd) ≤ length (files.src fd)

Move-Shorter :
    {buf_len : ℕ} {files files' : Files} {t t' : Thread}
    → Move buf_len files t files' t'
    → Shorter files files'
Move-Shorter (allocate e) = λ fd. omega arith
Move-Shorter (take_job e) = λ fd. omega arith
Move-Shorter (leave e) = λ fd. omega arith
Move-Shorter {files = files} (read_some {job} ret e some few) =
    update-each (λ fd file. length file ≤ length (files.src fd)) files.src job.0
      (drop ret (files.src job.0)) (omega (arith, length-drop ret (files.src job.0)))
      (λ fd other. omega arith)
Move-Shorter (read_end e none) = λ fd. omega arith
Move-Shorter (write_some ret e some few) = λ fd. omega arith
Move-Shorter (written e) = λ fd. omega arith
Move-Shorter (close_src e) = λ fd. omega arith
Move-Shorter (close_dst e) = λ fd. omega arith

module _ (files files' : Files) (shorter : Shorter files files') where
  work-le : (jobs : List Job) → work files' jobs ≤ work files jobs
  work-le [] = omega arith
  work-le (job ∷ jobs) = omega (arith, shorter job.0, work-le jobs)

  rank-le : (t : Thread) → rank files' t ≤ rank files t
  rank-le (starting jobs) = omega (arith, work-le jobs)
  rank-le (at_jobs jobs) = work-le jobs
  rank-le (busy reading job jobs) = omega (arith, shorter job.0, work-le jobs)
  rank-le (busy (writing bytes) job jobs) = omega (arith, shorter job.0, work-le jobs)
  rank-le (busy closing_src job jobs) = omega (arith, work-le jobs)
  rank-le (busy closing_dst job jobs) = omega (arith, work-le jobs)
  rank-le ended = omega arith

Move-rank :
    {buf_len : ℕ} {files files' : Files} {t t' : Thread}
    → Move buf_len files t files' t'
    → rank files' t' < rank files t
Move-rank {files = files} (allocate {jobs} e) =
    subst (λ t. work files jobs < rank files t) (sym e) (omega arith)
Move-rank {files = files} (take_job {job} {jobs} e) =
    subst (λ t. rank files (busy reading job jobs) < rank files t) (sym e) (omega arith)
Move-rank {files = files} (leave e) = subst (λ t. 0 < rank files t) (sym e) (omega arith)
Move-rank {files = files} {files'} {t' = t'} (read_some {job} {jobs} ret e some few) =
    let src = files.src job.0 in
    let others =
      work-le files files' (Move-Shorter {files = files} (read_some ret e some few)) jobs in
    let rest = ap length (update-same files.src job.0 (drop ret src)) in
    subst (λ t. rank files' t' < rank files t) (sym e)
      (omega (arith, some, few, others, rest, length-drop ret src, length-take ret src))
Move-rank {files = files} (read_end {job} {jobs} e none) =
    subst (λ t. 2 + work files jobs < rank files t) (sym e) (omega arith)
Move-rank {files = files} {t' = t'} (write_some {bytes} {job} {jobs} ret e some few) =
    subst
      (λ t.
        3 * length (files.src job.0) + length (drop ret bytes) + 4 + work files jobs < rank files t)
      (sym e) (omega (arith, some, few, length-drop ret bytes))
Move-rank {files = files} (written {job} {jobs} e) =
    subst (λ t. rank files (busy reading job jobs) < rank files t) (sym e) (omega arith)
Move-rank {files = files} (close_src {job} {jobs} e) =
    subst (λ t. 1 + work files jobs < rank files t) (sym e) (omega arith)
Move-rank {files = files} (close_dst {job} {jobs} e) =
    subst (λ t. work files jobs < rank files t) (sym e) (omega arith)

-- The bytes that the jobs' sources hold.
abbrev pub source_bytes : Files → List Job → ℕ
source_bytes files [] = 0
source_bytes files (job ∷ jobs) = length (files.src job.0) + source_bytes files jobs

source_bytes-append :
    (files : Files) (l r : List Job)
    → source_bytes files (l ++ r) ≡ source_bytes files l + source_bytes files r
source_bytes-append files [] r = omega arith
source_bytes-append files (job ∷ l) r = omega (arith, source_bytes-append files l r)

work-bytes :
    (files : Files) (jobs : List Job)
    → work files jobs ≡ 3 * source_bytes files jobs + 4 * length jobs + 1
work-bytes files [] = omega arith
work-bytes files (job ∷ jobs) = omega (arith, work-bytes files jobs)

module _ (buf_len : ℕ) (files₀ : Files) (jobs : List (List Job)) where
  abbrev rank_sum : Files → (ℕ → Thread) → ℕ
  rank_sum files threads = span (λ j. rank files (threads j)) 0 (length jobs)

  -- The steps that the main thread can still take.
  abbrev phase_rank : Phase → ℕ
  phase_rank (creating i) = (length jobs - i) + (length jobs + 3)
  phase_rank (joining i) = (length jobs - i) + 2
  phase_rank returned = 1
  phase_rank exited = 0

  abbrev pub measure : System → ℕ
  measure s = phase_rank s.phase + rank_sum s.files s.threads

  -- No more threads than there are lists of jobs.
  abbrev pub Bounded : System → Type 0
  Bounded s = created_to buf_len files₀ jobs s.phase ≤ length jobs

  pub Step-Bounded : {s s' : System} → Step buf_len files₀ jobs s s' → Bounded s → Bounded s'
  unfolding created_to
  Step-Bounded (create e lt) le = omega (arith, lt)
  Step-Bounded (created_all e ge) le = omega arith
  Step-Bounded (join e lt over) le = omega arith
  Step-Bounded (joined_all e ge) le = omega arith
  Step-Bounded (thread i lt mv) le = le
  Step-Bounded (fail i lt may) le = omega arith

  pub Reach-Bounded : {n : ℕ} {s : System} → Reach buf_len files₀ jobs n s → Bounded s
  unfolding created_to
  Reach-Bounded start = omega arith
  Reach-Bounded (later r step) = Step-Bounded step (Reach-Bounded r)

  phase_rank-pos : (p : Phase) (i : ℕ) → i < created_to buf_len files₀ jobs p → 0 < phase_rank p
  unfolding created_to
  phase_rank-pos (creating k) i lt = omega arith
  phase_rank-pos (joining k) i lt = omega arith
  phase_rank-pos returned i lt = omega arith
  phase_rank-pos exited i lt = absurd (omega (arith, lt))

  pub Step-measure :
      {s s' : System} → Step buf_len files₀ jobs s s' → Bounded s → measure s' < measure s
  Step-measure (create e lt) le = let before = ap phase_rank e in omega (arith, before, lt)
  Step-measure (created_all e ge) le = let before = ap phase_rank e in omega (arith, before)
  Step-measure (join e lt over) le = let before = ap phase_rank e in omega (arith, before, lt)
  Step-measure (joined_all e ge) le = let before = ap phase_rank e in omega (arith, before)
  Step-measure {s} (thread i {files'} {t} lt mv) le =
      let here = ap (rank files') (update-same s.threads i t) in
      let less =
        span-lt (λ j. rank files' (update s.threads i t j)) (λ j. rank s.files (s.threads j)) i 0
          (length jobs)
          (update-each (λ j x. rank files' x ≤ rank s.files (s.threads j)) s.threads i t
            (omega (arith, Move-rank mv))
            (λ j other. rank-le s.files files' (Move-Shorter mv) (s.threads j)))
          (omega (arith, here, Move-rank mv)) (omega arith) (omega (arith, lt, le)) in
      omega (arith, less)
  Step-measure {s} (fail i lt may) le = omega (arith, phase_rank-pos s.phase i lt)

  measure-Reach :
      {n : ℕ} {s : System}
      → Reach buf_len files₀ jobs n s
      → n + measure s ≤ measure (init buf_len files₀ jobs)
  measure-Reach start = omega arith
  measure-Reach (later r step) = omega (arith, measure-Reach r, Step-measure step (Reach-Bounded r))

  span-starting :
      (ls : List (List Job)) (f : ℕ → ℕ) (i : ℕ)
      → ((j : ℕ) → f (i + j) ≡ work files₀ (jobs_at ls j) + 1)
      → span f i (length ls)
        ≡ 3 * source_bytes files₀ (flat ls) + 4 * length (flat ls) + 2 * length ls
  unfolding jobs_at
  span-starting [] f i h = omega arith
  span-starting (l ∷ ls) f i h =
      let at : i + 0 ≡ i = omega arith in
      let first = h 0 in
      let place = ap f at in
      let rest =
        span-starting ls f (suc i)
          (λ j. let next : suc i + j ≡ i + suc j = omega arith in ap f next ∙ h (suc j)) in
      omega (
        arith,
        first,
        place,
        rest,
        work-bytes files₀ l,
        source_bytes-append files₀ l (flat ls),
        length-append l (flat ls),
      )

  -- No schedule of the threads is longer than four times the threads, plus four times the files, plus
  -- three times the bytes of all files, plus 3 steps.
  pub threads-end :
      {n : ℕ} {s : System}
      → Reach buf_len files₀ jobs n s
      → n ≤ 4 * length jobs + 4 * length (flat jobs) + 3 * source_bytes files₀ (flat jobs) + 3
  threads-end r =
      let first =
        span-starting jobs (λ j. work files₀ (jobs_at jobs j) + 1) 0
          (λ j.
            let at : 0 + j ≡ j = omega arith in ap (λ k. work files₀ (jobs_at jobs k) + 1) at) in
      omega (arith, measure-Reach r, first)
