-- ===== src/Interference/Threads/Ending.antt =====
-- Every schedule of run ends, and it can always go on to its return.
use gogeta_fs_ae.Common.{
  ℕ, suc, ◌+◌, ◌-◌, ◌*◌, ◌≤◌, ◌<◌, ◌≡◌, ap, sym, subst, ◌∙◌, true, false, List, [], ◌∷◌, ◌==◌,
  length, if◌then◌else◌, All, update, span, span-at, arith,
}
use gogeta_fs_ae.Interference.{Task}
use gogeta_fs_ae.Interference.Tasks.{blocks_of}
use gogeta_fs_ae.Interference.Threads.{
  Status, absent, created, ended, gave_up, stopped, writing, Thread, Move, begin, write_one, leave,
  give_up, stop, Phase, creating, joining, cancelling, summing, returned, System, num_readers,
  num_blocks_at, targets, others, joined_range, cancelled_range, Step, create, created_all, join,
  joined_all, cancel, cancelled_all, add, added_all, thread, init, Reach, start, later,
}
use gogeta_fs_ae.Interference.Threads.Invariant.{at_phase, Inv, Reach-Inv}

-- The steps that a thread can still take, with its creation.
abbrev rank : (num_blocks : ℕ) → Status → ℕ
rank n absent = n + 3
rank n created = n + 2
rank n (writing b) = (n - b) + 1
rank n ended = 0
rank n gave_up = 0
rank n stopped = 0

Move-rank : {n : ℕ} {t t' : Thread} → Move n t t' → rank n t'.status < rank n t.status
Move-rank {n} (begin e) = subst (λ st. n - 0 + 1 < rank n st) (sym e) (omega arith)
Move-rank {n} (write_one {block} e lt) =
    subst (λ st. n - suc block + 1 < rank n st) (sym e) (omega (arith, lt))
Move-rank {n} (leave e le) = subst (λ st. 0 < rank n st) (sym e) (omega arith)
Move-rank {n} (give_up e) = subst (λ st. 0 < rank n st) (sym e) (omega arith)
Move-rank {n} (stop e c) = subst (λ st. 0 < rank n st) (sym e) (omega arith)

module _ (tasks : List Task) (measurement : ℕ) where
  abbrev ranks : (ℕ → Thread) → ℕ → ℕ
  ranks threads j = rank (num_blocks_at tasks j) (threads j).status

  abbrev rank_sum : (ℕ → Thread) → ℕ
  rank_sum threads = span (ranks threads) 0 (length tasks)

  update-rank_sum :
      (threads : ℕ → Thread) (i : ℕ) (t : Thread)
      → i < length tasks
      → rank_sum (update threads i t) + rank (num_blocks_at tasks i) (threads i).status
        ≡ rank_sum threads + rank (num_blocks_at tasks i) t.status
  update-rank_sum threads i t lt =
      let here : (i == i) ≡ true = ground arith in
      let at = ap (λ b. rank (num_blocks_at tasks i) (if b then t else threads i).status) here in
      let all =
        span-at (ranks threads) (ranks (update threads i t)) i 0 (length tasks)
          (λ j other.
            ap (λ b. rank (num_blocks_at tasks j) (if b then t else threads j).status) other)
          (omega arith) (omega (arith, lt)) in
      omega (arith, all, at)

  -- The steps that the main thread can still take.
  abbrev phase_rank : Phase → ℕ
  phase_rank (creating i) = (length tasks - i) + (3 * length tasks + 6)
  phase_rank (joining i) = ((joined_range tasks measurement).1 - i) + (2 * length tasks + 5)
  phase_rank (cancelling i) = ((cancelled_range tasks measurement).1 - i) + (length tasks + 3)
  phase_rank (summing i total) = ((joined_range tasks measurement).1 - i) + 1
  phase_rank (returned total) = 0

  abbrev pub measure : System → ℕ
  measure s = phase_rank s.phase + rank_sum s.threads

  num_readers-le : (ts : List Task) → num_readers ts ≤ length ts
  unfolding num_readers
  num_readers-le [] = omega arith
  num_readers-le (t ∷ ts) = ground (arith, num_readers-le ts)

  pub joined_range-le : (joined_range tasks measurement).1 ≤ length tasks
  unfolding targets
  joined_range-le = ground (arith, num_readers-le tasks)

  cancelled_range-le : (cancelled_range tasks measurement).1 ≤ length tasks
  unfolding others
  cancelled_range-le = ground (arith, num_readers-le tasks)

  pub Step-measure :
      {s s' : System}
      → Inv tasks measurement s
      → Step tasks measurement s s'
      → measure s' < measure s
  Step-measure {s} inv (create {i} e lt) =
      let unborn = at_phase tasks measurement inv e i (omega arith) in
      let t : Thread = record {
        status = created;
        progress = (s.threads i).progress;
        cancelled = false;
      } in
      let all = update-rank_sum s.threads i t lt in
      let old = ap (rank (num_blocks_at tasks i)) unborn in
      let before = ap phase_rank e in omega (arith, all, old, before, lt)
  Step-measure inv (created_all e le) =
      let before = ap phase_rank e in omega (arith, before, joined_range-le)
  Step-measure inv (join e lt over) = let before = ap phase_rank e in omega (arith, before, lt)
  Step-measure inv (joined_all e le) =
      let before = ap phase_rank e in omega (arith, before, cancelled_range-le)
  Step-measure {s} inv (cancel {i} e lt) =
      let t : Thread = record {
        status = (s.threads i).status;
        progress = (s.threads i).progress;
        cancelled = true;
      } in
      let all = update-rank_sum s.threads i t (omega (arith, lt, cancelled_range-le)) in
      let before = ap phase_rank e in omega (arith, all, before, lt)
  Step-measure inv (cancelled_all e le) =
      let before = ap phase_rank e in omega (arith, before, joined_range-le)
  Step-measure inv (add e lt) = let before = ap phase_rank e in omega (arith, before, lt)
  Step-measure inv (added_all e le) = let before = ap phase_rank e in omega (arith, before)
  Step-measure {s} inv (thread i {t} lt mv) =
      let all = update-rank_sum s.threads i t lt in omega (arith, all, Move-rank mv)

  measure-Reach :
      {n : ℕ} {s : System}
      → All (λ t. t.progress ≡ 0) tasks
      → Reach tasks measurement n s
      → n + measure s ≤ measure (init tasks measurement)
  measure-Reach fresh start = omega arith
  measure-Reach fresh (later r step) =
      omega (arith, measure-Reach fresh r, Step-measure (Reach-Inv tasks measurement fresh r) step)

  span-absent :
      (ts : List Task) (f : ℕ → ℕ) (i : ℕ)
      → ((j : ℕ) → f (i + j) ≡ num_blocks_at ts j + 3)
      → span f i (length ts) ≡ 3 * length ts + blocks_of ts
  unfolding num_blocks_at
  span-absent [] f i h = omega arith
  span-absent (t ∷ ts) f i h =
      let at : i + 0 ≡ i = omega arith in
      let first = h 0 in
      let place = ap f at in
      let rest =
        span-absent ts f (suc i)
          (λ j. let next : suc i + j ≡ i + suc j = omega arith in ap f next ∙ h (suc j)) in
      omega (arith, first, place, rest)

  -- If the progress of every task is 0 at the start, no schedule of run is longer than seven times the
  -- number of tasks, plus the blocks of all tasks, plus 6 steps.
  pub run-ends :
      {n : ℕ} {s : System}
      → All (λ t. t.progress ≡ 0) tasks
      → Reach tasks measurement n s
      → n ≤ 7 * length tasks + blocks_of tasks + 6
  run-ends fresh r =
      let first : span (ranks (init tasks measurement).threads) 0 (length tasks)
          ≡ 3 * length tasks + blocks_of tasks =
        span-absent tasks (ranks (init tasks measurement).threads) 0
          (λ j. let at : 0 + j ≡ j = omega arith in ap (λ k. num_blocks_at tasks k + 3) at) in
      omega (arith, measure-Reach fresh r, first)
