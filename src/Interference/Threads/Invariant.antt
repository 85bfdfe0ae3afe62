-- ===== src/Interference/Threads/Invariant.antt =====
-- What holds in every state that run reaches.
use gogeta_fs_ae.Common.{
  ℕ, zero, suc, ◌+◌, ◌-◌, ◌%◌, ◌^◌, ◌≤◌, ◌<◌, ◌≡◌, refl, ap, sym, subst, ◌∙◌, true, false, List, [],
  ◌∷◌, ◌==◌, if◌then◌else◌, Bool-cases, inl, inr, All, update, update-All, span, span-ext, arith,
}
use gogeta_fs_ae.Interference.{Task}
use gogeta_fs_ae.Interference.Threads.{
  absent, created, Thread, is_over, Phase, creating, joining, cancelling, summing, returned, System,
  num_blocks_at, progress_at, targets, others, joined_range, cancelled_range, Step, create,
  created_all, join, joined_all, cancel, cancelled_all, add, added_all, thread, Reach, start, later,
}
use gogeta_fs_ae.Interference.Threads.Moves.{
  OwnAt, Own, Move-Own, cancel-Own, is_moving, Move-moving, Move-cancelled, over-not_moving,
}

module _ (tasks : List Task) (measurement : ℕ) where
  abbrev pub lo : ℕ
  lo = (joined_range tasks measurement).0

  abbrev pub hi : ℕ
  hi = (joined_range tasks measurement).1

  -- The progress of the joined tasks.
  abbrev pub processed : (ℕ → Thread) → ℕ
  processed threads = span (λ j. (threads j).progress) lo (hi - lo)

  abbrev pub OverBelow : (ℕ → Thread) → ℕ → Type 0
  OverBelow threads i = (j : ℕ) → lo ≤ j → j < i → is_over (threads j).status ≡ true

  -- What the main thread knows in a phase.
  abbrev pub At : (ℕ → Thread) → Phase → Type 0
  At threads (creating i) = (j : ℕ) → i ≤ j → (threads j).status ≡ absent
  At threads (joining i) = OverBelow threads i
  At threads (cancelling i) = OverBelow threads hi × ((cancelled_range tasks measurement).0 ≤ i)
  At threads (summing i total) =
      OverBelow threads hi
      × (lo ≤ i)
      × (total < 2 ^ 64)
      × ((total + span (λ j. (threads j).progress) i (hi - i)) % 2 ^ 64
          ≡ processed threads % 2 ^ 64)
  At threads (returned total) = OverBelow threads hi × (total ≡ processed threads % 2 ^ 64)

  pub record Inv (s : System) : Type 0 where
    pub own : (i : ℕ) → Own (num_blocks_at tasks i) (s.threads i)
    -- no joined thread is cancelled
    pub kept : (i : ℕ) → lo ≤ i → i < hi → (s.threads i).cancelled ≡ false
    pub at : At s.threads s.phase

  ranges-apart :
      (i : ℕ)
      → (cancelled_range tasks measurement).0 ≤ i
      → i < (cancelled_range tasks measurement).1
      → lo ≤ i
      → i < hi
      → ⊥
  unfolding targets others
  ranges-apart i a b c d = ground (arith, a, b, c, d)

  -- A step of a thread that moves leaves the main thread's knowledge.
  module _ (threads : ℕ → Thread) (i : ℕ) (t : Thread)
      (moving : is_moving (threads i).status ≡ true) where
    unmoved : (j : ℕ) → is_moving (threads j).status ≡ false → update threads i t j ≡ threads j
    unmoved j still = elim (Bool-cases (j == i)) [
      | inl e ↦
          let same : j ≡ i = ground (arith, e) in
          let both : true ≡ false =
            sym moving ∙ ap (λ k. is_moving (threads k).status) (sym same) ∙ still in
          absurd (grind (arith, both))
      | inr e ↦ ap (λ b. if b then t else threads j) e
    ]

    OverBelow-unmoved : (k : ℕ) → OverBelow threads k → OverBelow (update threads i t) k
    OverBelow-unmoved k over j low below =
        ap (λ x. is_over x.status)
          (unmoved j (over-not_moving (threads j).status (over j low below)))
        ∙ over j low below

    span-unmoved :
        (from : ℕ)
        → OverBelow threads hi
        → lo ≤ from
        → span (λ j. (update threads i t j).progress) from (hi - from)
          ≡ span (λ j. (threads j).progress) from (hi - from)
    span-unmoved from over le =
        span-ext (λ j. (update threads i t j).progress) (λ j. (threads j).progress) from (hi - from)
          (λ j low high.
            ap (λ x. x.progress)
              (unmoved j (
                over-not_moving (threads j).status
                  (over j (omega (arith, le, low)) (omega (arith, le, low, high))))))

    At-unmoved : (p : Phase) → At threads p → At (update threads i t) p
    At-unmoved (creating k) at =
        λ j le. ap (λ x. x.status) (unmoved j (ap is_moving (at j le))) ∙ at j le
    At-unmoved (joining k) at = OverBelow-unmoved k at
    At-unmoved (cancelling k) at = (OverBelow-unmoved hi at.0, at.1)
    At-unmoved (summing k total) (over, low, small, sum) = (
      OverBelow-unmoved hi over,
      low,
      small,
      ap (λ x. (total + x) % 2 ^ 64) (span-unmoved k over low)
          ∙ sum
          ∙ ap (λ x. x % 2 ^ 64) (sym (span-unmoved lo over (omega arith))),
    )
    At-unmoved (returned total) (over, sum) = (
      OverBelow-unmoved hi over,
      sum ∙ ap (λ x. x % 2 ^ 64) (sym (span-unmoved lo over (omega arith))),
    )

  abbrev pub at_phase : {s : System} {p : Phase} → Inv s → s.phase ≡ p → At s.threads p
  at_phase {s} inv e = subst (At s.threads) e inv.at

  pub Step-Inv : {s s' : System} → Step tasks measurement s s' → Inv s → Inv s'
  Step-Inv {s} (create {i} e lt) inv =
      let unborn = at_phase inv e in
      let t : Thread = record {
        status = created;
        progress = (s.threads i).progress;
        cancelled = false;
      } in
      let zero_progress : (s.threads i).progress ≡ 0 =
        subst (OwnAt (num_blocks_at tasks i) (s.threads i).progress (s.threads i).cancelled)
          (unborn i (omega arith)) (inv.own i) in
      record {
        own = update-All (λ j x. Own (num_blocks_at tasks j) x) s.threads i t zero_progress inv.own;
        kept =
            update-All (λ j x. lo ≤ j → j < hi → x.cancelled ≡ false) s.threads i t
              (λ low high. refl) inv.kept;
        at =
            update-All (λ j x. suc i ≤ j → x.status ≡ absent) s.threads i t
              (λ le. absurd (omega (arith, le))) (λ j le. unborn j (omega (arith, le)));
      }
  Step-Inv {s} (created_all {i} e le) inv = record {
    own = inv.own;
    kept = inv.kept;
    at = λ j low below. absurd (omega (arith, low, below));
  }
  Step-Inv {s} (join {i} e lt over) inv =
      let below = at_phase inv e in
      record {
        own = inv.own;
        kept = inv.kept;
        at = λ j low high. elim (Bool-cases (j == i)) [
          | inl same ↦ subst (λ k. is_over (s.threads k).status ≡ true) (ground (arith, same)) over
          | inr other ↦ below j low (ground (arith, other, high))
        ];
      }
  Step-Inv {s} (joined_all {i} e le) inv =
      let below = at_phase inv e in
      record {
        own = inv.own;
        kept = inv.kept;
        at = (λ j low high. below j low (omega (arith, high, le)), omega arith);
      }
  Step-Inv {s} (cancel {i} e lt) inv =
      let (over, low) = at_phase inv e in
      let t : Thread = record {
        status = (s.threads i).status;
        progress = (s.threads i).progress;
        cancelled = true;
      } in
      record {
        own =
            update-All (λ j x. Own (num_blocks_at tasks j) x) s.threads i t
              (cancel-Own (num_blocks_at tasks i) (s.threads i).progress (s.threads i).cancelled
                (s.threads i).status (inv.own i))
              inv.own;
        kept =
            update-All (λ j x. lo ≤ j → j < hi → x.cancelled ≡ false) s.threads i t
              (λ a b. absurd (ranges-apart i low lt a b)) inv.kept;
        at = (
          update-All (λ j x. lo ≤ j → j < hi → is_over x.status ≡ true) s.threads i t (over i) over,
          omega (arith, low),
        );
      }
  Step-Inv {s} (cancelled_all {i} e le) inv =
      let (over, low) = at_phase inv e in
      record { own = inv.own; kept = inv.kept; at = (over, omega arith, omega arith, omega arith) }
  Step-Inv {s} (add {i} {total} e lt) inv =
      let (over, low, small, sum) = at_phase inv e in
      let left : hi - i ≡ suc (hi - suc i) = omega (arith, lt) in
      let f : ℕ → ℕ = λ j. (s.threads j).progress in
      let sum' =
        subst (λ n. (total + span f i n) % 2 ^ 64 ≡ processed s.threads % 2 ^ 64) left sum in
      record {
        own = inv.own;
        kept = inv.kept;
        at = (over, omega (arith, low), omega arith, omega (arith, sum'));
      }
  Step-Inv {s} (added_all {i} {total} e le) inv =
      let (over, low, small, sum) = at_phase inv e in
      let none_left : hi - i ≡ 0 = omega (arith, le) in
      let sum' =
        subst
          (λ n.
            (total + span (λ j. (s.threads j).progress) i n) % 2 ^ 64
            ≡ processed s.threads % 2 ^ 64)
          none_left sum in
      record { own = inv.own; kept = inv.kept; at = (over, omega (arith, sum', small)) }
  Step-Inv {s} (thread i {t} lt mv) inv = record {
    own =
        update-All (λ j x. Own (num_blocks_at tasks j) x) s.threads i t (Move-Own mv (inv.own i))
          inv.own;
    kept =
        update-All (λ j x. lo ≤ j → j < hi → x.cancelled ≡ false) s.threads i t
          (λ low high. Move-cancelled mv ∙ inv.kept i low high) inv.kept;
    at = At-unmoved s.threads i t (Move-moving mv) s.phase inv.at;
  }

  progress_at-fresh :
      (ts : List Task) → All (λ t. t.progress ≡ 0) ts → (i : ℕ) → progress_at ts i ≡ 0
  unfolding progress_at
  progress_at-fresh [] fresh i = refl
  progress_at-fresh (t ∷ ts) fresh zero = fresh.0
  progress_at-fresh (t ∷ ts) fresh (suc i) = progress_at-fresh ts fresh.1 i

  pub Reach-Inv :
      {n : ℕ} {s : System} → All (λ t. t.progress ≡ 0) tasks → Reach tasks measurement n s → Inv s
  Reach-Inv fresh start = record {
    own = progress_at-fresh tasks fresh;
    kept = λ i low high. refl;
    at = λ j le. refl;
  }
  Reach-Inv fresh (later r step) = Step-Inv step (Reach-Inv fresh r)
