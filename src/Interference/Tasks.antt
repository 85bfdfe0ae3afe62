-- ===== src/Interference/Tasks.antt =====
-- The ranges of magic numbers of the tasks.
use native.Mathlib.Nat.{mul-div-le}
use gogeta_fs_ae.Common.{
  ℕ, zero, suc, ◌+◌, ◌*◌, ◌/◌, ◌%◌, ◌^◌, ◌≤◌, ◌<◌, ◌≡◌, refl, ap, sym, subst, Bool, true, false,
  some, List, [], ◌∷◌, ◌++◌, All, All-append, All-map, ◌==◌, length, if◌then◌else◌, arith,
}
use gogeta_fs_ae.Interference.{Task, add_tasks, share, split_blocks, make_tasks}

-- The magic number behind a task's last one.
abbrev pub end_of : Task → ℕ
end_of t = t.start_magic + t.num_blocks

-- The blocks of all tasks.
abbrev pub blocks_of : List Task → ℕ
blocks_of [] = 0
blocks_of (t ∷ ts) = t.num_blocks + blocks_of ts

pub blocks_of-append : (l r : List Task) → blocks_of (l ++ r) ≡ blocks_of l + blocks_of r
blocks_of-append [] r = omega arith
blocks_of-append (t ∷ l) r = omega (arith, blocks_of-append l r)

-- Each task begins where the one before it ends.
abbrev pub Chained : (from : ℕ) → List Task → Type 0
Chained from [] = Unit
Chained from (t ∷ ts) = (t.start_magic ≡ from) × Chained (end_of t) ts

record Added (n magic num_blocks : ℕ) (dup : Bool) (ts : List Task) : Type 0 where
  pub chained : Chained magic ts
  pub count : length ts ≡ n
  pub blocks : blocks_of ts ≡ n * num_blocks
  pub same : All (λ t. (t.num_blocks ≡ num_blocks) × (t.dup ≡ dup) × (t.progress ≡ 0)) ts
  pub from : All (λ t. magic ≤ t.start_magic) ts
  pub up_to : All (λ t. end_of t ≤ magic + n * num_blocks) ts

add_tasks-Added :
    (n i magic num_blocks : ℕ) (dup : Bool)
    → magic + n * num_blocks < 2 ^ 64
    → Added n magic num_blocks dup (add_tasks n i magic num_blocks dup)
unfolding add_tasks
add_tasks-Added zero i magic num_blocks dup small = record {
  chained = tt;
  count = refl;
  blocks = omega arith;
  same = tt;
  from = tt;
  up_to = tt;
}
add_tasks-Added (suc n) i magic num_blocks dup small =
    let more : suc n * num_blocks ≡ num_blocks + n * num_blocks = grind arith in
    let wraps : (magic + num_blocks) % 2 ^ 64 ≡ magic + num_blocks = omega (arith, small, more) in
    let r =
      subst
        (λ m. Added n (magic + num_blocks) num_blocks dup (add_tasks n (suc i) m num_blocks dup))
        (sym wraps)
        (add_tasks-Added n (suc i) (magic + num_blocks) num_blocks dup
          (omega (arith, small, more))) in
    let rest = add_tasks n (suc i) ((magic + num_blocks) % 2 ^ 64) num_blocks dup in
    record {
      chained = (refl, r.chained);
      count = ap suc r.count;
      blocks = omega (arith, r.blocks, more);
      same = ((refl, refl, refl), r.same);
      from = (
        omega arith,
        All-map rest (λ (t : Task) (h : magic + num_blocks ≤ t.start_magic). omega (arith, h))
            r.from,
      );
      up_to = (
        omega (arith, more),
        All-map rest
            (λ (t : Task) (h : end_of t ≤ magic + num_blocks + n * num_blocks).
              omega (arith, h, more))
            r.up_to,
      );
    }

-- What a share comes to.
share-le : (total num : ℕ) → num * share total num ≤ total
unfolding share
share-le total zero = omega arith
share-le total (suc n) =
    let nonzero : (suc n == 0) ≡ false = ground arith in
    subst (λ b. suc n * (if b then 0 else total / suc n) ≤ total) (sym nonzero)
      (mul-div-le total (suc n))

-- The tasks of one make_tasks: the readers cut the prepared blocks, the writers stay behind `total`.
pub record Ranges (reader_num writer_num total : ℕ) (tasks : List Task) : Type 0 where
  pub readers : List Task
  pub writers : List Task
  pub both : tasks ≡ readers ++ writers
  pub reader_count : length readers ≡ reader_num
  pub writer_count : length writers ≡ writer_num
  pub readers_chained : Chained 0 readers
  pub writers_chained : Chained total writers
  pub readers_dup : All (λ t. t.dup ≡ true) readers
  pub writers_new : All (λ t. t.dup ≡ false) writers
  pub inside : All (λ t. end_of t ≤ blocks_of tasks) readers
  pub outside : All (λ t. (total ≤ t.start_magic) × (end_of t ≤ 2 * total)) writers
  pub enough : blocks_of tasks ≤ total
  pub unstarted : All (λ t. t.progress ≡ 0) tasks

module _ (quarter : ℕ → ℕ) (within : (n : ℕ) → quarter n ≤ n) where
  split_blocks-total :
      (reader_num writer_num total measurement : ℕ)
      → (split_blocks quarter reader_num writer_num total measurement).0
          + (split_blocks quarter reader_num writer_num total measurement).1
        ≡ total
  unfolding split_blocks
  split_blocks-total reader_num writer_num total measurement = ground (arith, within total)

  make_tasks-some :
      (reader_num writer_num total measurement : ℕ)
      → 1 ≤ reader_num + writer_num
      → reader_num + writer_num < 2 ^ 32
      → let blocks = split_blocks quarter reader_num writer_num total measurement in
        make_tasks quarter reader_num writer_num total measurement
        ≡ some (
            add_tasks reader_num 0 0 (share blocks.0 reader_num) true
            ++ add_tasks writer_num reader_num total (share blocks.1 writer_num) false)
  unfolding make_tasks
  make_tasks-some reader_num writer_num total measurement any few =
      let test : ((reader_num + writer_num) % 2 ^ 32 == 0) ≡ false = ground (arith, any, few) in
      rw (make_tasks, test)

  -- With at least one task, fewer than 2 ^ 32 tasks, fewer than 2 ^ 62 blocks and a quarter that is
  -- not above its whole, make_tasks gives the readers and then the writers that it was asked for.
  -- The readers' ranges of magic numbers begin at 0 and follow one another inside the blocks of all
  -- tasks, which are not more than the total; the writers' ranges begin at the total and follow one
  -- another, up to twice the total at most.
  pub make_tasks-Ranges :
      (reader_num writer_num total measurement : ℕ)
      → 1 ≤ reader_num + writer_num
      → reader_num + writer_num < 2 ^ 32
      → total < 2 ^ 62
      → (tasks : List Task) × (make_tasks quarter reader_num writer_num total measurement
          ≡ some tasks)
        × Ranges reader_num writer_num total tasks
  make_tasks-Ranges reader_num writer_num total measurement any few small =
      let blocks = split_blocks quarter reader_num writer_num total measurement in
      let parts = split_blocks-total reader_num writer_num total measurement in
      let own : ℕ = share blocks.0 reader_num in
      let new : ℕ = share blocks.1 writer_num in
      let own_le = share-le blocks.0 reader_num in
      let new_le = share-le blocks.1 writer_num in
      let r = add_tasks-Added reader_num 0 0 own true (omega (arith, small, parts, own_le)) in
      let w =
        add_tasks-Added writer_num reader_num total new false
          (omega (arith, small, parts, new_le)) in
      let rs = add_tasks reader_num 0 0 own true in
      let ws = add_tasks writer_num reader_num total new false in
      let sum = blocks_of-append rs ws in
      (
        rs ++ ws,
        make_tasks-some reader_num writer_num total measurement any few,
        record {
          readers = rs;
          writers = ws;
          both = refl;
          reader_count = r.count;
          writer_count = w.count;
          readers_chained = r.chained;
          writers_chained = w.chained;
          readers_dup =
              All-map rs
                (λ (t : Task) (h : (t.num_blocks ≡ own) × (t.dup ≡ true) × (t.progress ≡ 0)). h.1)
                r.same;
          writers_new =
              All-map ws
                (λ (t : Task) (h : (t.num_blocks ≡ new) × (t.dup ≡ false) × (t.progress ≡ 0)). h.1)
                w.same;
          inside =
              All-map rs
                (λ (t : Task) (h : end_of t ≤ 0 + reader_num * own).
                  omega (arith, h, sum, r.blocks))
                r.up_to;
          outside = behind ws w.from (
              All-map ws
                (λ (t : Task) (h : end_of t ≤ total + writer_num * new).
                  omega (arith, h, new_le, parts))
                w.up_to);
          enough = omega (arith, sum, r.blocks, w.blocks, own_le, new_le, parts);
          unstarted =
              All-append (λ t. t.progress ≡ 0) rs ws
                (All-map rs
                  (λ (t : Task) (h : (t.num_blocks ≡ own) × (t.dup ≡ true) × (t.progress ≡ 0)). h.2)
                  r.same)
                (All-map ws
                  (λ (t : Task) (h : (t.num_blocks ≡ new) × (t.dup ≡ false) × (t.progress ≡ 0)).
                    h.2)
                  w.same);
        },
      )
    where
      behind :
          (ts : List Task)
          → All (λ t. total ≤ t.start_magic) ts
          → All (λ t. end_of t ≤ 2 * total) ts
          → All (λ t. (total ≤ t.start_magic) × (end_of t ≤ 2 * total)) ts
      behind [] a b = tt
      behind (t ∷ ts) a b = ((a.0, b.0), behind ts a.1 b.1)
