-- ===== src/Interference/Content.antt =====
-- What the files of the two stages hold: a reader's blocks are those that were prepared, a writer's
-- are new.
use gogeta_fs_ae.Common.{
  ℕ, zero, suc, ◌+◌, ◌*◌, ◌/◌, ◌%◌, ◌^◌, ◌≤◌, ◌<◌, ◌≡◌, refl, ap, ap₂, sym, subst, ◌∙◌, Bool, true,
  some, min, List, [], ◌∷◌, ◌++◌, map, append-nil, append_assoc, length, drop, flat, All, All-map,
  arith,
}
use gogeta_fs_ae.Buffer.{drop-whole}
use gogeta_fs_ae.File.{Answer, count}
use gogeta_fs_ae.Interference.{
  Task, Written, write_blocks, make_file, prepare_files, prepare_workload, dedup_or_write_task,
  make_tasks,
}
use gogeta_fs_ae.Interference.Tasks.{end_of, blocks_of, Ranges, make_tasks-Ranges}

module _ (granularity : ℕ) where
  -- `n` whole blocks from the magic number `start`.
  abbrev pub whole_blocks : (start n : ℕ) → List (ℕ × ℕ)
  whole_blocks start zero = []
  whole_blocks start (suc n) = (start, granularity) ∷ whole_blocks (suc start) n

  whole_blocks-append :
      (start n m : ℕ)
      → whole_blocks start n ++ whole_blocks (start + n) m ≡ whole_blocks start (n + m)
  whole_blocks-append start zero m = ap₂ whole_blocks (omega arith) (omega arith)
  whole_blocks-append start (suc n) m =
      let next : suc n + m ≡ suc (n + m) = omega arith in
      let at : start + suc n ≡ suc start + n = omega arith in
      ap (λ k. (start, granularity) ∷ (whole_blocks (suc start) n ++ whole_blocks k m)) at
      ∙ ap (◌∷◌ (start, granularity)) (whole_blocks-append (suc start) n m)
      ∙ ap (whole_blocks start) (sym next)

  whole_blocks-All :
      (P : ℕ × ℕ → Type 0) (start n : ℕ)
      → ((m : ℕ) → start ≤ m → m < start + n → P (m, granularity))
      → All P (whole_blocks start n)
  whole_blocks-All P start zero h = tt
  whole_blocks-All P start (suc n) h = (
    h start (omega arith) (omega arith),
    whole_blocks-All P (suc start) n (λ m low high. h m (omega (arith, low)) (omega (arith, high))),
  )

  module _ (answers : ℕ → Answer)
      (whole : (k : ℕ) → (n : ℕ) × (answers k ≡ count n) × (granularity ≤ n)) where
    write_blocks-step :
        (n block start : ℕ) (w : Written)
        → start + block < 2 ^ 64
        → write_blocks answers granularity (suc n) block start w
          ≡ write_blocks answers granularity n (suc block) start (record w {
            blocks = w.blocks ++ (start + block, granularity) ∷ [];
            progress = suc block;
            calls = suc w.calls;
          })
    unfolding write_blocks
    write_blocks-step n block start w small =
        let (k, e, full) = whole w.calls in
        let sent : min k granularity ≡ granularity = omega (arith, full) in
        let magic : (start + block) % 2 ^ 64 ≡ start + block = omega (arith, small) in
        rw (write_blocks, e)
          (ap₂
            (λ m g. write_blocks answers granularity n (suc block) start (record w {
              blocks = w.blocks ++ (m, g) ∷ [];
              progress = suc block;
              calls = suc w.calls;
            }))
            magic sent)

    abbrev Wrote : Written × Bool → Written → (start n progress : ℕ) → Type 0
    Wrote r w start n progress =
        (r.1 ≡ true) × (r.0.progress ≡ progress) × (r.0.blocks ≡ w.blocks ++ whole_blocks start n)

    write_blocks-Wrote :
        (n block start : ℕ) (w : Written)
        → w.progress ≡ block
        → start + block + n < 2 ^ 64
        → Wrote (write_blocks answers granularity n block start w) w (start + block) n (block + n)
    unfolding write_blocks
    write_blocks-Wrote zero block start w at small =
        (refl, omega (arith, at), sym (append-nil w.blocks))
    write_blocks-Wrote (suc n) block start w at small =
        let w' : Written = record w {
          blocks = w.blocks ++ (start + block, granularity) ∷ [];
          progress = suc block;
          calls = suc w.calls;
        } in
        let (done, number, blocks) =
          write_blocks-Wrote n (suc block) start w' refl (omega (arith, small)) in
        let next : start + suc block ≡ suc (start + block) = omega arith in
        subst (λ r. Wrote r w (start + block) (suc n) (block + suc n))
          (sym (write_blocks-step n block start w (omega (arith, small))))
          (
            done,
            omega (arith, number),
            blocks
                ∙ ap (λ k. w.blocks ++ (start + block, granularity) ∷ [] ++ whole_blocks k n) next
                ∙ append_assoc w.blocks ((start + block, granularity) ∷ [])
                    (whole_blocks (suc (start + block)) n),
          )

    write_blocks-behind :
        (n block start : ℕ) (w : Written)
        → (write_blocks answers granularity n block start w).0.behind ≡ w.behind
    unfolding write_blocks
    write_blocks-behind zero block start w = refl
    write_blocks-behind (suc n) block start w =
        let (k, e, full) = whole w.calls in
        let w' : Written = record w {
          blocks = w.blocks ++ ((start + block) % 2 ^ 64, min k granularity) ∷ [];
          progress = suc block;
          calls = suc w.calls;
        } in
        rw (write_blocks, e) (write_blocks-behind n (suc block) start w')

    module _ (malloc : (calls size : ℕ) → List ℕ)
        (gives : (calls size : ℕ) → length (malloc calls size) ≡ size)
        (whole_words : granularity % 8 ≡ 0) where
      abbrev start_of : ℕ → Written
      start_of calls = record {
        blocks = [];
        behind = drop (granularity / 8 * 8) (malloc calls granularity);
        progress = 0;
        calls = calls;
      }

      start_of-behind : (calls : ℕ) → (start_of calls).behind ≡ []
      start_of-behind calls =
          ap (drop (granularity / 8 * 8)) (sym (append-nil (malloc calls granularity)))
          ∙ drop-whole (malloc calls granularity) [] (granularity / 8 * 8)
              (omega (arith, whole_words, gives calls granularity))

      make_file-behind :
          (num start calls : ℕ)
          → (make_file malloc answers granularity num start calls).0.behind ≡ []
      unfolding make_file
      make_file-behind num start calls =
          write_blocks-behind num 0 start (start_of calls) ∙ start_of-behind calls

      make_file-whole :
          (num start calls : ℕ)
          → start + num < 2 ^ 64
          → let r = make_file malloc answers granularity num start calls in
            (r.1 ≡ true) × (r.0.progress ≡ num) × (r.0.blocks ≡ whole_blocks start num)
      unfolding make_file
      make_file-whole num start calls small =
          let (done, number, blocks) =
            write_blocks-Wrote num 0 start (start_of calls) refl (omega (arith, small)) in
          let at : start + 0 ≡ start = omega arith in
          (done, omega (arith, number), blocks ∙ ap (λ k. whole_blocks k num) at)

      prepare_files-whole :
          (tasks : List Task) (start calls : ℕ)
          → start + blocks_of tasks < 2 ^ 64
          → flat (map (λ w. w.blocks) (prepare_files malloc answers granularity tasks start calls))
            ≡ whole_blocks start (blocks_of tasks)
      unfolding prepare_files
      prepare_files-whole [] start calls small = refl
      prepare_files-whole (t ∷ tasks) start calls small =
          let file = (make_file malloc answers granularity t.num_blocks start calls).0 in
          let (done, number, blocks) =
            make_file-whole t.num_blocks start calls (omega (arith, small)) in
          let at : (start + t.num_blocks) % 2 ^ 64 ≡ start + t.num_blocks = omega (arith, small) in
          ap
            (λ k.
              file.blocks
              ++ flat (
                  map (λ w. w.blocks)
                    (prepare_files malloc answers granularity tasks k file.calls)))
            at
          ∙ ap₂ ◌++◌ blocks
              (prepare_files-whole tasks (start + t.num_blocks) file.calls (omega (arith, small)))
          ∙ whole_blocks-append start t.num_blocks (blocks_of tasks)

      prepare_files-behind :
          (tasks : List Task) (start calls : ℕ)
          → All (λ w. w.behind ≡ []) (prepare_files malloc answers granularity tasks start calls)
      unfolding prepare_files
      prepare_files-behind [] start calls = tt
      prepare_files-behind (t ∷ tasks) start calls = (
        make_file-behind t.num_blocks start calls,
        prepare_files-behind tasks ((start + t.num_blocks) % 2 ^ 64)
            (make_file malloc answers granularity t.num_blocks start calls).0.calls,
      )

      -- A task's file in the second stage: every block is whole, consists of its words and satisfies `P`.
      abbrev pub Holds : (P : ℕ → Type 0) (calls : ℕ) → Task → Type 0
      Holds P calls t =
          ((dedup_or_write_task malloc answers granularity t calls).1 ≡ true)
          × ((dedup_or_write_task malloc answers granularity t calls).0.progress ≡ t.num_blocks)
          × ((dedup_or_write_task malloc answers granularity t calls).0.behind ≡ [])
          × All (λ b. P b.0 × (b.1 ≡ granularity))
              (dedup_or_write_task malloc answers granularity t calls).0.blocks

      task-Holds :
          (P : ℕ → Type 0) (calls : ℕ) (t : Task)
          → end_of t < 2 ^ 64
          → ((m : ℕ) → t.start_magic ≤ m → m < end_of t → P m)
          → Holds P calls t
      unfolding dedup_or_write_task
      task-Holds P calls t small h =
          let (done, number, blocks) = make_file-whole t.num_blocks t.start_magic calls small in
          (
            done,
            number,
            make_file-behind t.num_blocks t.start_magic calls,
            subst (All (λ b. P b.0 × (b.1 ≡ granularity))) (sym blocks) (
                whole_blocks-All (λ b. P b.0 × (b.1 ≡ granularity)) t.start_magic t.num_blocks
                  (λ m low high. (h m low high, refl))),
          )

      -- With blocks of whole words, at least one task, fewer than 2 ^ 32 tasks, fewer than 2 ^ 62 blocks
      -- and a quarter that is not above its whole, if every write transfers its whole block: make_tasks
      -- gives tasks with their ranges, for which the preparation writes the blocks of the magic numbers
      -- from 0 up to the blocks of all tasks, each once and in order. In the second stage every block of
      -- a reader is one of these, so it is a duplicate, and no block of a writer is; every task writes
      -- all of its blocks and counts them in its progress.
      pub stages-duplicates :
          (quarter : ℕ → ℕ)
          → ((n : ℕ) → quarter n ≤ n)
          → (reader_num writer_num total measurement calls : ℕ) → 1 ≤ reader_num + writer_num
          → reader_num + writer_num < 2 ^ 32
          → total < 2 ^ 62
          → (tasks : List Task) × (r : Ranges reader_num writer_num total tasks) × (make_tasks
                quarter reader_num writer_num total measurement
              ≡ some tasks)
            × (flat (map (λ w. w.blocks) (prepare_workload malloc answers granularity tasks))
                ≡ whole_blocks 0 (blocks_of tasks))
            × All (λ w. w.behind ≡ []) (prepare_workload malloc answers granularity tasks)
            × All (Holds (λ m. m < blocks_of tasks) calls) r.readers
            × All (Holds (λ m. blocks_of tasks ≤ m) calls) r.writers
      unfolding prepare_workload
      stages-duplicates quarter within reader_num writer_num total measurement calls any few small =
          let (tasks, e, r) =
            make_tasks-Ranges quarter within reader_num writer_num total measurement any few
              small in
          (
            tasks,
            r,
            e,
            prepare_files-whole tasks 0 0 (omega (arith, r.enough, small)),
            prepare_files-behind tasks 0 0,
            All-map r.readers
                (λ (t : Task) (h : end_of t ≤ blocks_of tasks).
                  task-Holds (λ m. m < blocks_of tasks) calls t (omega (arith, h, r.enough, small))
                    (λ m low high. omega (arith, high, h)))
                r.inside,
            All-map r.writers
                (λ (t : Task) (h : (total ≤ t.start_magic) × (end_of t ≤ 2 * total)).
                  task-Holds (λ m. blocks_of tasks ≤ m) calls t (omega (arith, h.1, small))
                    (λ m low high. omega (arith, low, h.0, r.enough)))
                r.outside,
          )
