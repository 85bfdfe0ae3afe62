-- ===== src/Tests/Interfering.antt =====
-- The readers and writers of the interference benchmark on small inputs.
use gogeta_fs_ae.Common.{
  ℕ, zero, suc, ◌+◌, ◌*◌, ◌/◌, ◌≡◌, ◌≤◌, ◌<◌, refl, true, false, some, List, [], ◌∷◌, map, length,
  flat, All, replicate, length-replicate, arith,
}
use gogeta_fs_ae.File.{Answer, count}
use gogeta_fs_ae.Interference.{
  Task, mo_read_lat, make_tasks, add_tasks, share, split_blocks, prepare_workload,
}
use gogeta_fs_ae.Interference.Tasks.{blocks_of, Ranges, make_tasks-Ranges}
use gogeta_fs_ae.Interference.Content.{whole_blocks, Holds, stages-duplicates}
use gogeta_fs_ae.Interference.Threads.{
  created, ended, gave_up, begin, write_one, leave, returned, System, num_readers, num_blocks_at,
  targets, others, is_over, progress_at, create, created_all, join, joined_all, cancelled_all,
  cancel, add, added_all, thread, Reach, start, later, init,
}
use gogeta_fs_ae.Interference.Threads.Ending.{run-ends}
use gogeta_fs_ae.Interference.Threads.Returning.{Follows, run-returns}
use gogeta_fs_ae.Interference.Threads.Invariant.{lo, hi}
use gogeta_fs_ae.Interference.Threads.Result.{measured, run-reports}

abbrev quarter : ℕ → ℕ
quarter n = n / 4

quarter-le : (n : ℕ) → quarter n ≤ n
quarter-le n = omega arith

make_tasks-test :
    make_tasks quarter 1 1 8 mo_read_lat
    ≡ some (
        record { start_magic = 0; num_blocks = 2; progress = 0; id = 0; dup = true }
        ∷ record { start_magic = 8; num_blocks = 6; progress = 0; id = 1; dup = false }
        ∷ [])
unfolding make_tasks add_tasks share split_blocks
make_tasks-test = refl

ranges-test :
    (tasks : List Task) × (make_tasks quarter 1 1 8 mo_read_lat ≡ some tasks) × Ranges 1 1 8 tasks
ranges-test =
    make_tasks-Ranges quarter quarter-le 1 1 8 mo_read_lat (omega arith) (omega arith) (omega arith)

abbrev whole_write : ℕ → Answer
whole_write k = count 4096

abbrev zeros : (calls size : ℕ) → List ℕ
zeros calls size = replicate size 0

zeros-size : (calls size : ℕ) → length (zeros calls size) ≡ size
zeros-size calls size = length-replicate size 0

stages-test :
    (tasks : List Task) × (r : Ranges 1 1 8 tasks) × (make_tasks quarter 1 1 8 mo_read_lat
      ≡ some tasks)
    × (flat (map (λ w. w.blocks) (prepare_workload zeros whole_write 4096 tasks))
        ≡ whole_blocks 4096 0 (blocks_of tasks))
    × All (λ w. w.behind ≡ []) (prepare_workload zeros whole_write 4096 tasks)
    × All
        (Holds 4096 whole_write
          (λ k. (4096, refl, omega arith))
          zeros
          zeros-size
          refl
          (λ m. m < blocks_of tasks)
          0)
        r.readers
    × All
        (Holds 4096 whole_write
          (λ k. (4096, refl, omega arith))
          zeros
          zeros-size
          refl
          (λ m. blocks_of tasks ≤ m)
          0)
        r.writers
stages-test =
    stages-duplicates 4096 whole_write (λ k. (4096, refl, omega arith)) zeros zeros-size refl
      quarter quarter-le 1 1 8 mo_read_lat 0 (omega arith) (omega arith) (omega arith)

abbrev reader_task : Task
reader_task = record { start_magic = 0; num_blocks = 1; progress = 0; id = 0; dup = true }

abbrev writer_task : Task
writer_task = record { start_magic = 4; num_blocks = 3; progress = 0; id = 1; dup = false }

abbrev two_tasks : List Task
two_tasks = reader_task ∷ writer_task ∷ []

two_tasks-Ranges : Ranges 1 1 4 two_tasks
two_tasks-Ranges = record {
  readers = reader_task ∷ [];
  writers = writer_task ∷ [];
  both = refl;
  reader_count = refl;
  writer_count = refl;
  readers_chained = (refl, tt);
  writers_chained = (refl, tt);
  readers_dup = (refl, tt);
  writers_new = (refl, tt);
  inside = (omega arith, tt);
  outside = ((omega arith, omega arith), tt);
  enough = omega arith;
  unstarted = (refl, (refl, tt));
}

-- The writer is still to read its parameter when run has returned and freed it.
returned_early :
    (s : System) × Reach two_tasks mo_read_lat 12 s
    × (s.phase ≡ returned 1)
    × ((s.threads 0).status ≡ ended)
    × ((s.threads 1).status ≡ created)
unfolding num_readers num_blocks_at targets others is_over progress_at
returned_early =
    let s₁ = later start (create refl (omega arith)) in
    let s₂ = later s₁ (create refl (omega arith)) in
    let s₃ = later s₂ (thread 0 (omega arith) (begin refl)) in
    let s₄ = later s₃ (created_all refl (omega arith)) in
    let s₅ = later s₄ (thread 0 (omega arith) (write_one refl (omega arith))) in
    let s₆ = later s₅ (thread 0 (omega arith) (leave refl (omega arith))) in
    let s₇ = later s₆ (join refl (omega arith) refl) in
    let s₈ = later s₇ (joined_all refl (omega arith)) in
    let s₉ = later s₈ (cancel refl (omega arith)) in
    let s₁₀ = later s₉ (cancelled_all refl (omega arith)) in
    let s₁₁ = later s₁₀ (add refl (omega arith)) in
    (_, later s₁₁ (added_all refl (omega arith)), refl, refl, refl)

reader_sound :
    (i : ℕ)
    → lo two_tasks mo_read_lat ≤ i
    → i < hi two_tasks mo_read_lat
    → (returned_early.0.threads i).status ≡ gave_up
    → ⊥
unfolding num_readers targets
reader_sound zero low high e = absurd (grind (arith, e, returned_early.3))
reader_sound (suc i) low high e = absurd (omega (arith, high))

run-reports_example : 1 ≡ measured two_tasks-Ranges mo_read_lat
run-reports_example =
    run-reports two_tasks-Ranges mo_read_lat (omega arith) returned_early.1 1 returned_early.2
      reader_sound

run-ends_example : 12 ≤ 7 * length two_tasks + blocks_of two_tasks + 6
run-ends_example = run-ends two_tasks mo_read_lat (refl, (refl, tt)) returned_early.1

run-returns_example :
    (s' : System) × (total : ℕ) × Follows two_tasks mo_read_lat (init two_tasks mo_read_lat) s'
    × (s'.phase ≡ returned total)
run-returns_example = run-returns two_tasks mo_read_lat (refl, (refl, tt)) start
