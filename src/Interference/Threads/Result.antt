-- ===== src/Interference/Threads/Result.antt =====
-- What run reports of the tasks that make_tasks makes.
use gogeta_fs_ae.Common.{
  ℕ, zero, suc, ◌+◌, ◌-◌, ◌^◌, ◌≤◌, ◌<◌, ◌≡◌, refl, ap, ap₂, sym, subst, ◌∙◌, append-nil, Bool,
  true, false, List, [], ◌∷◌, ◌++◌, ◌==◌, length, length-append, if◌then◌else◌, All, span, span-ext,
  arith,
}
use gogeta_fs_ae.Interference.{Task, mo_read_lat, mo_write_lat}
use gogeta_fs_ae.Interference.Tasks.{blocks_of, blocks_of-append, Ranges}
use gogeta_fs_ae.Interference.Threads.{
  Status, absent, created, ended, gave_up, stopped, writing, is_over, returned, System, num_readers,
  num_blocks_at, targets, Reach,
}
use gogeta_fs_ae.Interference.Threads.Moves.{OwnAt}
use gogeta_fs_ae.Interference.Threads.Invariant.{lo, hi, processed, Inv, at_phase, Reach-Inv}

over-ended :
    (st : Status) → is_over st ≡ true → (st ≡ gave_up → ⊥) → (st ≡ stopped → ⊥) → st ≡ ended
unfolding is_over
over-ended ended o g s = refl
over-ended gave_up o g s = absurd (g refl)
over-ended stopped o g s = absurd (s refl)
over-ended absent o g s = absurd (grind (arith, o))
over-ended created o g s = absurd (grind (arith, o))
over-ended (writing b) o g s = absurd (grind (arith, o))

-- The joined tasks, by their place in the list.
num_readers-append :
    (rs ws : List Task)
    → All (λ t. t.dup ≡ true) rs
    → All (λ t. t.dup ≡ false) ws
    → num_readers (rs ++ ws) ≡ length rs
unfolding num_readers
num_readers-append [] [] a b = refl
num_readers-append [] (w ∷ ws) a b =
    ap (λ d. (if d then 1 else 0) + num_readers ws) b.0
    ∙ omega (arith, num_readers-append [] ws a b.1)
num_readers-append (r ∷ rs) ws a b =
    ap (λ d. (if d then 1 else 0) + num_readers (rs ++ ws)) a.0
    ∙ omega (arith, num_readers-append rs ws a.1 b)

span-tail :
    (t : Task) (ts : List Task) (i n : ℕ)
    → span (num_blocks_at (t ∷ ts)) (suc i) n ≡ span (num_blocks_at ts) i n
unfolding num_blocks_at
span-tail t ts i zero = refl
span-tail t ts i (suc n) = ap (num_blocks_at ts i +◌) (span-tail t ts (suc i) n)

span-readers : (rs ws : List Task) → span (num_blocks_at (rs ++ ws)) 0 (length rs) ≡ blocks_of rs
unfolding num_blocks_at
span-readers [] ws = refl
span-readers (r ∷ rs) ws =
    ap (r.num_blocks +◌) (span-tail r (rs ++ ws) 0 (length rs) ∙ span-readers rs ws)

span-writers :
    (rs ws : List Task) → span (num_blocks_at (rs ++ ws)) (length rs) (length ws) ≡ blocks_of ws
span-writers [] ws =
    ap (λ l. span (num_blocks_at l) 0 (length ws)) (sym (append-nil ws)) ∙ span-readers ws []
span-writers (r ∷ rs) ws = span-tail r (rs ++ ws) (length rs) (length ws) ∙ span-writers rs ws

-- The blocks of the tasks that the option -m names.
abbrev pub measured :
    {reader_num writer_num total : ℕ} {tasks : List Task}
    → Ranges reader_num writer_num total tasks
    → (measurement : ℕ) → ℕ
measured r measurement =
    if measurement == mo_read_lat
    then blocks_of r.readers
    else (if measurement == mo_write_lat then blocks_of r.writers else 0)

module _ {reader_num writer_num total : ℕ} {tasks : List Task}
    (r : Ranges reader_num writer_num total tasks) (measurement : ℕ) where
  readers_eq : num_readers tasks ≡ length r.readers
  readers_eq =
      ap num_readers r.both ∙ num_readers-append r.readers r.writers r.readers_dup r.writers_new

  length_eq : length tasks ≡ length r.readers + length r.writers
  length_eq = ap length r.both ∙ length-append r.readers r.writers

  chosen :
      (b c : Bool)
      → let p : ℕ × ℕ =
          if b
          then (0, num_readers tasks)
          else (if c then (num_readers tasks, length tasks) else (0, 0)) in
        span (num_blocks_at tasks) p.0 (p.1 - p.0)
        ≡ (if b then blocks_of r.readers else (if c then blocks_of r.writers else 0))
  chosen true c =
      ap₂ (λ ts n. span (num_blocks_at ts) 0 n) r.both (omega (arith, readers_eq))
      ∙ span-readers r.readers r.writers
  chosen false true =
      let width : length tasks - num_readers tasks ≡ length r.writers =
        omega (arith, readers_eq, length_eq) in
      ap₂ (λ i n. span (num_blocks_at tasks) i n) readers_eq width
      ∙ ap (λ ts. span (num_blocks_at ts) (length r.readers) (length r.writers)) r.both
      ∙ span-writers r.readers r.writers
  chosen false false =
      let no_width : 0 - 0 ≡ 0 = omega arith in ap (span (num_blocks_at tasks) 0) no_width

  span-measured :
      span
        (num_blocks_at tasks)
        (lo tasks measurement)
        (hi tasks measurement - lo tasks measurement)
      ≡ measured r measurement
  unfolding targets
  span-measured = chosen (measurement == mo_read_lat) (measurement == mo_write_lat)

  measured-le : measured r measurement ≤ blocks_of tasks
  measured-le =
      let sum = ap blocks_of r.both ∙ blocks_of-append r.readers r.writers in ground (arith, sum)

  -- For tasks with the ranges that make_tasks gives and a total below 2 ^ 62, when run returns, whatever the order in which the threads
  -- took their steps and whatever became of the cancelled ones: if no thread that was joined gave up,
  -- the blocks reported are all blocks of the readers for MO_READ_LAT, all blocks of the writers for
  -- MO_WRITE_LAT, and none for another measurement.
  pub run-reports :
      {n : ℕ} {s : System}
      → total < 2 ^ 62
      → Reach tasks measurement n s
      → (reported : ℕ) → s.phase ≡ returned reported
      → ((i : ℕ)
          → lo tasks measurement ≤ i
          → i < hi tasks measurement
          → (s.threads i).status ≡ gave_up
          → ⊥)
      → reported ≡ measured r measurement
  run-reports {s} small reach reported e sound =
      let inv = Reach-Inv tasks measurement r.unstarted reach in
      let (over, sum) = at_phase tasks measurement inv e in
      let l : ℕ = lo tasks measurement in
      let whole : (j : ℕ)
          → l ≤ j
          → j < l + (hi tasks measurement - l)
          → (s.threads j).progress ≡ num_blocks_at tasks j =
        λ j low high. joined inv j low (omega (arith, low, high)) over in
      let same : processed tasks measurement s.threads ≡ measured r measurement =
        span-ext (λ j. (s.threads j).progress) (num_blocks_at tasks) l (hi tasks measurement - l)
          whole
        ∙ span-measured in
      omega (arith, sum, same, measured-le, r.enough, small)
    where
      joined :
          Inv tasks measurement s
          → (j : ℕ) → lo tasks measurement ≤ j
          → j < hi tasks measurement
          → ((j : ℕ)
              → lo tasks measurement ≤ j
              → j < hi tasks measurement
              → is_over (s.threads j).status ≡ true)
          → (s.threads j).progress ≡ num_blocks_at tasks j
      joined inv j low high over =
          let t = s.threads j in
          let own = inv.own j in
          let live = inv.kept j low high in
          let done = over-ended t.status (over j low high) (sound j low high) (λ stop. absurd (
            grind (
              arith,
              live,
              (subst (OwnAt (num_blocks_at tasks j) t.progress t.cancelled) stop own).1,
            ))) in
          subst (OwnAt (num_blocks_at tasks j) t.progress t.cancelled) done own
