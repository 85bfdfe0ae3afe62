-- ===== src/Tests/Threading.antt =====
-- The threads of the copy program on small inputs.
use mathlib.Core.List.{Perm}
use mathlib.Core.List.Perm
use gogeta_fs_ae.Common.{
  ℕ, ◌+◌, ◌*◌, ◌≤◌, ◌≡◌, ◌==◌, if◌then◌else◌, refl, List, [], ◌∷◌, ◌++◌, some, Result, ok, flat,
  length, arith,
}
use gogeta_fs_ae.Mcp.Jobs.{
  FileWork, Plan, plan_jobs, assign_works, assign_work, pop_least, start_plan, start_loads, less,
}
use gogeta_fs_ae.Mcp.Copy.{Files}
use gogeta_fs_ae.Mcp.Threads.{
  Job, allocate, take_job, leave, read_some, read_end, write_some, written, close_src, close_dst,
  returned, System, jobs_at, created_to, create, created_all, join, joined_all, thread, init, Reach,
  start, later,
}
use gogeta_fs_ae.Mcp.Threads.Ending.{source_bytes, threads-end}
use gogeta_fs_ae.Mcp.Threads.Returning.{Follows, threads-return}
use gogeta_fs_ae.Mcp.Tree.{
  Entries, end_of_dir, entry, reg, Walk, cp_dir, cp_node, make_dir, handle_regular_file, opened_at,
  is_dot,
}
use gogeta_fs_ae.Mcp.Tree.Places.{Works, FitIn, files_in}
use gogeta_fs_ae.Mcp.Main.{
  present, Args, buf_len_of, dst_fd_of, works_of, open_destination, traverse, prepare,
}
use gogeta_fs_ae.Mcp.Main.Works.{Numbered, AllDiffer}
use gogeta_fs_ae.Mcp.Main.Whole.{Traversed, prepare-plans, mcp-copies}
use gogeta_fs_ae.Tests.Copying.{good_system}

abbrev two_works : List FileWork
two_works =
    record { size = 2; src_fd = 3; dst_fd = 4 } ∷ record { size = 1; src_fd = 5; dst_fd = 6 } ∷ []

abbrev two_lists : List (List Job)
two_lists = ((3, 4) ∷ []) ∷ ((5, 6) ∷ []) ∷ []

abbrev two_plan : Plan
two_plan = record { pq = (1, 1) ∷ (2, 0) ∷ []; jobs = two_lists }

two_plan-test : plan_jobs (λ l. l) 2 two_works ≡ ok two_plan
unfolding plan_jobs assign_works assign_work pop_least start_plan start_loads less
two_plan-test = refl

abbrev two_files : Files
two_files = record { src = λ fd. if fd == 3 then 1 ∷ 2 ∷ [] else 7 ∷ []; dst = λ fd. [] }

one_le_one : 1 ≤ 1
one_le_one = omega arith

one_le_two : 1 ≤ 2
one_le_two = omega arith

two_le_two : 2 ≤ 2
two_le_two = omega arith

-- Both threads in turn, with a buffer of 4 bytes of which a write takes one.
two_threads : (s : System) × Reach 4 two_files two_lists 25 s × (s.phase ≡ returned)
unfolding created_to jobs_at
two_threads =
    let s₁ = later start (create refl one_le_two) in
    let s₂ = later s₁ (thread 0 one_le_one (allocate refl)) in
    let s₃ = later s₂ (create refl two_le_two) in
    let s₄ = later s₃ (thread 1 two_le_two (allocate refl)) in
    let s₅ = later s₄ (thread 1 two_le_two (take_job refl)) in
    let s₆ = later s₅ (thread 0 one_le_two (take_job refl)) in
    let s₇ = later s₆ (thread 0 one_le_two (read_some 2 refl one_le_two two_le_two)) in
    let s₈ = later s₇ (thread 1 two_le_two (read_some 1 refl one_le_one one_le_one)) in
    let s₉ = later s₈ (created_all refl two_le_two) in
    let t₁ = later s₉ (thread 0 one_le_two (write_some 1 refl one_le_one one_le_two)) in
    let t₂ = later t₁ (thread 1 two_le_two (write_some 1 refl one_le_one one_le_one)) in
    let t₃ = later t₂ (thread 0 one_le_two (write_some 1 refl one_le_one one_le_one)) in
    let t₄ = later t₃ (thread 1 two_le_two (written refl)) in
    let t₅ = later t₄ (thread 0 one_le_two (written refl)) in
    let t₆ = later t₅ (thread 1 two_le_two (read_end refl refl)) in
    let t₇ = later t₆ (thread 0 one_le_two (read_end refl refl)) in
    let t₈ = later t₇ (thread 0 one_le_two (close_src refl)) in
    let t₉ = later t₈ (thread 0 one_le_two (close_dst refl)) in
    let u₁ = later t₉ (thread 0 one_le_two (leave refl)) in
    let u₂ = later u₁ (join refl one_le_two refl) in
    let u₃ = later u₂ (thread 1 two_le_two (close_src refl)) in
    let u₄ = later u₃ (thread 1 two_le_two (close_dst refl)) in
    let u₅ = later u₄ (thread 1 two_le_two (leave refl)) in
    let u₆ = later u₅ (join refl two_le_two refl) in
    (_, later u₆ (joined_all refl two_le_two), refl)

-- The source /s has the two files, and the destination /t is there already.
abbrev two_entries : Entries
two_entries = entry (b'f' ∷ []) (reg 2) (entry (b'g' ∷ []) (reg 1) end_of_dir)

abbrev two_args : Args
two_args = record {
  src_dir = (b's' ∷ []) ∷ [];
  dst_dir = (b't' ∷ []) ∷ [];
  thread_num = 2;
  buf_bytes = some (b'4' ∷ []);
}

-- The descriptors that open gives: 3 and 4, 5 and 6, and so on.
abbrev next_fds : ℕ → Job
next_fds k = (2 * k + 3, 2 * k + 4)

next_fds-AllDiffer : AllDiffer next_fds
next_fds-AllDiffer i j ne = ((λ e. ne (omega (arith, e))), λ e. ne (omega (arith, e)))

abbrev two_walk : Walk
two_walk = record {
  cwd = (b's' ∷ []) ∷ [];
  files =
      record {
        src = (b's' ∷ []) ∷ (b'f' ∷ []) ∷ [];
        dst = some ((b't' ∷ []) ∷ (b's' ∷ []) ∷ (b'f' ∷ []) ∷ []);
        size = 2;
      }
      ∷ record {
        src = (b's' ∷ []) ∷ (b'g' ∷ []) ∷ [];
        dst = some ((b't' ∷ []) ∷ (b's' ∷ []) ∷ (b'g' ∷ []) ∷ []);
        size = 1;
      }
      ∷ [];
  links = [];
  dirs = ((b't' ∷ []) ∷ (b's' ∷ []) ∷ []) ∷ [];
}

abbrev prepare_two : Result (Walk × Plan)
prepare_two =
    prepare good_system 1 [] (λ p. present) (λ p. b's' ∷ []) (λ l. l) next_fds two_args []
      two_entries

prepare-test : prepare_two ≡ ok (two_walk, two_plan)
unfolding prepare traverse open_destination works_of dst_fd_of cp_dir cp_node make_dir
    handle_regular_file opened_at is_dot plan_jobs assign_works assign_work pop_least start_plan
    start_loads less
prepare-test = refl

all_works : Works good_system
all_works = record {
  opens_src = λ p. refl;
  opens_dst = λ p. refl;
  makes_dirs = λ p e. ground (arith, e);
  reads_links = λ p. refl;
  makes_links = λ p. refl;
  changes_dir = λ p. refl;
}

two_fit : FitIn good_system 1 [] two_entries
unfolding FitIn
two_fit = (tt, (tt, tt))

prepare-plans_example :
    (w : Walk) × (plan : Plan) × (prepare_two ≡ ok (w, plan))
    × Traversed good_system 1 []
        (λ p. present)
        (λ p. b's' ∷ [])
        all_works
        two_args
        two_entries
        two_fit
        tt
        w
    × (length plan.jobs ≡ 2)
    × Perm (flat plan.jobs) ((3, 4) ∷ (5, 6) ∷ [])
unfolding files_in works_of dst_fd_of is_dot
prepare-plans_example =
    prepare-plans good_system 1 [] (λ p. present) (λ p. b's' ∷ []) all_works two_args two_entries
      two_fit tt (λ l. l) next_fds [] (λ l. Perm.refl l) (omega arith) (omega arith)

mcp-copies_example :
    Traversed good_system 1 []
      (λ p. present)
      (λ p. b's' ∷ [])
      all_works
      two_args
      two_entries
      two_fit
      tt
      two_walk
    × Numbered next_fds
        (λ k o.
          two_threads.0.files.dst (next_fds k).1
          ≡ two_files.dst (next_fds k).1 ++ two_files.src (next_fds k).0)
        0
        two_walk.files
unfolding files_in works_of dst_fd_of is_dot buf_len_of
mcp-copies_example =
    mcp-copies good_system 1 [] (λ p. present) (λ p. b's' ∷ []) all_works two_args two_entries
      two_fit tt (λ l. l) next_fds [] (λ s. 4) two_files (λ l. Perm.refl l) (omega arith)
      (omega arith) (omega arith) next_fds-AllDiffer prepare-test two_threads.1 two_threads.2

threads-end_example :
    25
    ≤ 4 * length two_lists
      + 4 * length (flat two_lists)
      + 3 * source_bytes two_files (flat two_lists)
      + 3
threads-end_example = threads-end 4 two_files two_lists two_threads.1

threads-return_example :
    (s' : System) × Follows 4 two_files two_lists (init 4 two_files two_lists) s'
    × (s'.phase ≡ returned)
threads-return_example = threads-return 4 two_files two_lists start (ground arith)
