-- ===== src/Mcp/Threads/Planned.antt =====
-- The whole copying: the files are assigned to the threads, which then run beside one another.
use mathlib.Core.List.{Perm}
use mathlib.Core.List.Perm
use gogeta_fs_ae.Common.{
  ℕ, ◌^◌, ◌≤◌, ◌<◌, ◌≡◌, refl, ap, sym, subst, ◌∙◌, List, [], ◌∷◌, ◌++◌, map, All, All-Perm,
  Pairs-Perm, flat, length, length-map, ok, ℕ_discrete, arith,
}
use gogeta_fs_ae.Mcp.Jobs.{FileWork, Plan, plan_jobs}
use gogeta_fs_ae.Mcp.Jobs.Rounds.{fds, bytes}
use gogeta_fs_ae.Mcp.Jobs.Balance.{plan_jobs-balanced}
use gogeta_fs_ae.Mcp.Copy.{Files}
use gogeta_fs_ae.Mcp.Copy.Whole.{Apart, Separate}
use gogeta_fs_ae.Mcp.Threads.{Job, returned, System, Reach}
use gogeta_fs_ae.Mcp.Threads.Frame.{Apart-sym}
use gogeta_fs_ae.Mcp.Threads.Result.{threads-Copied}

flat-fds :
    (assigned : List (List FileWork)) → flat (map (map fds) assigned) ≡ map fds (flat assigned)
flat-fds [] = refl
flat-fds (l ∷ ls) = ap (λ r. map fds l ++ r) (flat-fds ls) ∙ sym (map-append l (flat ls))
  where
    map-append : (l r : List FileWork) → map fds (l ++ r) ≡ map fds l ++ map fds r
    map-append [] r = refl
    map-append (work ∷ l) r = ap (λ m. fds work ∷ m) (map-append l r)

size-le :
    (files : List FileWork) (most : ℕ) → bytes files ≤ most → All (λ work. work.size ≤ most) files
size-le [] most le = tt
size-le (work ∷ files) most le = (omega (arith, le), size-le files most (omega (arith, le)))

All-fds :
    (P : Job → Type 0) (files : List FileWork)
    → All P (map fds files)
    → All (λ work. P (fds work)) files
All-fds P [] a = tt
All-fds P (work ∷ files) a = (a.0, All-fds P files a.1)

Apart-prop : (a b : Job) → IsProp (Apart a b)
Apart-prop a b = hlevel

bytes_prop : (a b : List ℕ) → IsProp (a ≡ b)
bytes_prop a b = hlevel ℕ_discrete

-- Every file is the job of one thread.
pub plan_jobs-Perm :
    (sort : List FileWork → List FileWork) (thread_num : ℕ) (files : List FileWork)
    → ((l : List FileWork) → Perm (sort l) l)
    → 1 ≤ thread_num
    → bytes (sort files) < 2 ^ 64
    → (plan : Plan) × (plan_jobs sort thread_num files ≡ ok plan)
      × (length plan.jobs ≡ thread_num)
      × Perm (flat plan.jobs) (map fds files)
plan_jobs-Perm sort thread_num files sorts some_thread small =
    let (plan, assigned, e, jobs, threads, perm, balanced) =
      plan_jobs-balanced sort thread_num (bytes (sort files)) files sorts some_thread
        (size-le (sort files) (bytes (sort files)) (omega arith)) small in
    let given : flat plan.jobs ≡ map fds (flat assigned) = ap flat jobs ∙ flat-fds assigned in
    (
      plan,
      e,
      ap length jobs ∙ length-map assigned (map fds) ∙ threads,
      subst (λ l. Perm l (map fds files)) (sym given) (Perm.map fds perm),
    )

module _ (sort : List FileWork → List FileWork) (thread_num buf_len : ℕ) (files : List FileWork)
    (files₀ : Files) where
  -- With at least one thread, files of less than 2 ^ 64 bytes in all that have different descriptors, a
  -- sort that reorders them and a buffer of at least a byte: when main returns, in whatever order the
  -- threads took their steps, each destination has the bytes of its source behind what it had.
  pub plan_jobs-Copied :
      {n : ℕ} {s : System} {plan : Plan}
      → ((l : List FileWork) → Perm (sort l) l)
      → 1 ≤ thread_num
      → 1 ≤ buf_len
      → bytes (sort files) < 2 ^ 64
      → Separate (map fds files)
      → plan_jobs sort thread_num files ≡ ok plan
      → Reach buf_len files₀ plan.jobs n s
      → s.phase ≡ returned
      → All
          (λ work. s.files.dst work.dst_fd ≡ files₀.dst work.dst_fd ++ files₀.src work.src_fd)
          files
  plan_jobs-Copied {n} {s} {plan} sorts some_thread some_room small separate e r ended =
      let (plan', e', threads, perm) =
        plan_jobs-Perm sort thread_num files sorts some_thread small in
      let both : ok plan ≡ ok plan' = sym e ∙ e' in
      let same : plan' ≡ plan = cc both in
      let all : Perm (flat plan.jobs) (map fds files) =
        subst (λ p. Perm (flat p.jobs) (map fds files)) same perm in
      All-fds _ files (
        All-Perm (λ job. bytes_prop _ _) all
          (threads-Copied buf_len files₀ plan.jobs some_room
            (Pairs-Perm Apart-prop Apart-sym (Perm.symm all) separate) r ended))
