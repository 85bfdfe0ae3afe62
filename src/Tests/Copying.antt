-- ===== src/Tests/Copying.antt =====
-- The copy program on small inputs.
use mathlib.Core.List.{Perm}
use mathlib.Core.List.Perm
use gogeta_fs_ae.Common.{
  ℕ, ◌+◌, ◌≡◌, ◌≤◌, ◌↔◌, refl, true, false, some, List, [], ◌∷◌, map, length, get_elem?, replicate,
  ok, err, out_of_bounds, out_of_fuel, flat, All, arith,
}
use gogeta_fs_ae.File.{Answer, count}
use gogeta_fs_ae.Mcp.Jobs.{
  FileWork, Plan, plan_jobs, assign_works, assign_work, pop_least, start_plan, start_loads, less,
}
use gogeta_fs_ae.Mcp.Jobs.Rounds.{bytes, fds}
use gogeta_fs_ae.Mcp.Jobs.Balance.{plan_jobs-balanced, plan_jobs-no_thread}
use gogeta_fs_ae.Mcp.Copy.{Files, cp_func}
use gogeta_fs_ae.Mcp.Copy.Whole.{Copied, cp_func-Copied}
use gogeta_fs_ae.Mcp.Copy.Nothing.{cp_func-empty_buffer}
use gogeta_fs_ae.Mcp.Link.{handle_symbolic_link, c_string, read_target}
use gogeta_fs_ae.Mcp.Link.Text.{handle_symbolic_link-endless, handle_symbolic_link-short}
use gogeta_fs_ae.Mcp.Tree.{Entries, end_of_dir, entry, reg, lnk, dir, made, System, Walk, cp_dir}
use gogeta_fs_ae.Mcp.Tree.Places.{Visited, FitIn, files_in, links_in, cp_dir-Visited}

abbrev works : List FileWork
works =
    record { size = 9; src_fd = 3; dst_fd = 4 }
    ∷ record { size = 7; src_fd = 5; dst_fd = 6 }
    ∷ record { size = 4; src_fd = 7; dst_fd = 8 }
    ∷ []

-- The files are already in order.
abbrev in_order : List FileWork → List FileWork
in_order l = l

plan_jobs-test :
    plan_jobs in_order 2 works
    ≡ ok (record { pq = (11, 1) ∷ (9, 0) ∷ []; jobs = ((3, 4) ∷ []) ∷ ((5, 6) ∷ (7, 8) ∷ []) ∷ [] })
unfolding plan_jobs assign_works assign_work pop_least start_plan start_loads less
plan_jobs-test = refl

plan_jobs-balanced_example :
    (plan : Plan) × (assigned : List (List FileWork)) × (plan_jobs in_order 2 works ≡ ok plan)
    × (plan.jobs ≡ map (map fds) assigned)
    × (length assigned ≡ 2)
    × Perm (flat assigned) works
    × All (λ a. All (λ b. bytes a ≤ bytes b + 9) assigned) assigned
plan_jobs-balanced_example =
    plan_jobs-balanced in_order 2 9 works (λ l. Perm.refl l) (omega arith)
      (omega arith, (omega arith, (omega arith, tt))) (omega arith)

no_thread-test : plan_jobs in_order 0 works ≡ err out_of_bounds
no_thread-test =
    plan_jobs-no_thread in_order (record { size = 9; src_fd = 3; dst_fd = 4 })
      (record { size = 7; src_fd = 5; dst_fd = 6 }
        ∷ record { size = 4; src_fd = 7; dst_fd = 8 }
        ∷ [])
      works refl

-- At most two bytes at a time.
abbrev two_bytes : ℕ → Answer
two_bytes k = count 2

abbrev some_files : Files
some_files = record { src = λ fd. 1 ∷ 2 ∷ 3 ∷ 4 ∷ 5 ∷ []; dst = λ fd. [] }

cp_func-Copied_example :
    (files' : Files) × (cp_func two_bytes 4 true some_files ((3, 4) ∷ (5, 6) ∷ []) ≡ ok files')
    × Copied some_files files' ((3, 4) ∷ (5, 6) ∷ [])
    × (files'.dst 8 ≡ some_files.dst 8)
cp_func-Copied_example =
    cp_func-Copied two_bytes (λ k. (1, refl)) 4 some_files ((3, 4) ∷ (5, 6) ∷ []) 8 (omega arith)
      (((ground arith, ground arith), tt), (tt, tt)) (ground arith, (ground arith, tt))

empty_buffer-test :
    (files' : Files) × (cp_func two_bytes 0 true some_files ((3, 4) ∷ []) ≡ ok files')
    × ((fd : ℕ) → files'.dst fd ≡ some_files.dst fd)
empty_buffer-test = cp_func-empty_buffer two_bytes (λ k. (1, refl)) 0 some_files ((3, 4) ∷ []) refl

abbrev long_link : List ℕ
long_link = replicate 256 b'a'

handle_symbolic_link-endless_example : handle_symbolic_link 1000 long_link [] ≡ err out_of_fuel
handle_symbolic_link-endless_example = handle_symbolic_link-endless 1000 long_link [] (omega arith)

handle_symbolic_link-short_example :
    (handle_symbolic_link 1 (b'a' ∷ []) (replicate 256 7) ≡ ok (b'a' ∷ []))
    ↔ (get_elem? {A = ℕ} (replicate 256 7) 1 ≡ some 0)
handle_symbolic_link-short_example =
    handle_symbolic_link-short 1 (b'a' ∷ []) (replicate 256 7) (omega arith) refl (ground arith, tt)

abbrev pub good_system : System
good_system = record {
  open_src = λ p. true;
  open_dst = λ p. true;
  mkdir_answer = λ p. made;
  readlink_fails = λ p. false;
  symlink_fails = λ p. false;
  chdir_fails = λ p. false;
}

abbrev tree : Entries
tree = entry (b'.' ∷ []) (dir end_of_dir) (
    entry (b'd' ∷ [])
      (dir (entry (b'f' ∷ []) (reg 5) (entry (b'l' ∷ []) (lnk (b'f' ∷ [])) end_of_dir))) end_of_dir)

abbrev at_source : Walk
at_source = record { cwd = (b's' ∷ []) ∷ []; files = []; links = []; dirs = [] }

cp_dir-Visited_example :
    (w' : Walk) × (cp_dir good_system 1 (replicate 256 0) tree (some ((b't' ∷ []) ∷ [])) at_source
      ≡ ok w')
    × Visited at_source w'
        (files_in at_source.cwd ((b't' ∷ []) ∷ []) tree)
        (links_in ((b't' ∷ []) ∷ []) tree)
unfolding FitIn handle_symbolic_link c_string read_target
cp_dir-Visited_example =
    cp_dir-Visited good_system 1 (replicate 256 0)
      (record {
        opens_src = λ p. refl;
        opens_dst = λ p. refl;
        makes_dirs = λ p e. ground (arith, e);
        reads_links = λ p. refl;
        makes_links = λ p. refl;
        changes_dir = λ p. refl;
      })
      tree ((b't' ∷ []) ∷ []) at_source (tt, ((tt, (refl, tt)), tt))
