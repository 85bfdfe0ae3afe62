-- ===== src/Interference/Threads/Returning.antt =====
-- From every state run can go on to its return.
use gogeta_fs_ae.Common.{
  ℕ, zero, suc, ◌≤◌, ◌<◌, ◌≡◌, refl, ap, sym, subst, ◌∙◌, true, false, List, length, dec_lt, ◌⊎◌,
  inl, inr, All, arith,
}
use gogeta_fs_ae.Interference.{Task}
use gogeta_fs_ae.Interference.Threads.{
  Status, absent, created, ended, gave_up, stopped, writing, Thread, is_over, Move, begin,
  write_one, leave, Phase, creating, joining, cancelling, summing, returned, System, num_blocks_at,
  joined_range, cancelled_range, Step, create, created_all, join, joined_all, cancel, cancelled_all,
  add, added_all, thread, Reach,
}
use gogeta_fs_ae.Interference.Threads.Created.{
  is_absent, Created, created_to, Step-Created, Reach-Created,
}
use gogeta_fs_ae.Interference.Threads.Invariant.{Inv, Step-Inv, Reach-Inv}
use gogeta_fs_ae.Interference.Threads.Ending.{measure, Step-measure, joined_range-le}

-- A thread that was created and is not over can move.
Status-moves :
    (n : ℕ) (t : Thread)
    → is_absent t.status ≡ false
    → (is_over t.status ≡ true) ⊎ ((t' : Thread) × Move n t t')
unfolding is_over
Status-moves n t born = moves t.status refl
  where
    moves :
        (st : Status) → t.status ≡ st → (is_over t.status ≡ true) ⊎ ((t' : Thread) × Move n t t')
    moves absent e = absurd (grind (arith, sym (ap is_absent e) ∙ born))
    moves created e = inr (_, begin e)
    moves (writing b) e = elim (dec_lt b n) [
      | yes lt ↦ inr (_, write_one e lt)
      | no ge ↦ inr (_, leave e (omega (arith, ge)))
    ]
    moves ended e = inl (ap is_over e)
    moves gave_up e = inl (ap is_over e)
    moves stopped e = inl (ap is_over e)

module _ (tasks : List Task) (measurement : ℕ) where
  -- The states that follow `s`.
  pub data Follows : System → System → Type 0 where
    now : {s : System} → Follows s s
    next : {s s' s'' : System} → Step tasks measurement s s' → Follows s' s'' → Follows s s''

  -- No deadlock: run has returned or takes a step.
  proceeds :
      (s : System)
      → Created tasks measurement s.threads (created_to tasks measurement s.phase)
      → ((total : ℕ) × (s.phase ≡ returned total)) ⊎ ((s' : System) × Step tasks measurement s s')
  proceeds s c = at s.phase refl
    where
      at :
          (p : Phase)
          → s.phase ≡ p
          → ((total : ℕ) × (s.phase ≡ returned total))
            ⊎ ((s' : System) × Step tasks measurement s s')
      at (creating i) e = elim (dec_lt i (length tasks)) [
        | yes lt ↦ inr (_, create e lt)
        | no ge ↦ inr (_, created_all e (omega (arith, ge)))
      ]
      at (joining i) e = elim (dec_lt i (joined_range tasks measurement).1) [
        | yes lt ↦
            let all =
              subst (λ p. Created tasks measurement s.threads (created_to tasks measurement p)) e
                c in
            let few : i < length tasks = omega (arith, lt, joined_range-le tasks measurement) in
            elim (Status-moves (num_blocks_at tasks i) (s.threads i) (all i few)) [
              | inl over ↦ inr (_, join e lt over)
              | inr (t, mv) ↦ inr (_, thread i few mv)
            ]
        | no ge ↦ inr (_, joined_all e (omega (arith, ge)))
      ]
      at (cancelling i) e = elim (dec_lt i (cancelled_range tasks measurement).1) [
        | yes lt ↦ inr (_, cancel e lt)
        | no ge ↦ inr (_, cancelled_all e (omega (arith, ge)))
      ]
      at (summing i total) e = elim (dec_lt i (joined_range tasks measurement).1) [
        | yes lt ↦ inr (_, add e lt)
        | no ge ↦ inr (_, added_all e (omega (arith, ge)))
      ]
      at (returned total) e = inl (total, e)

  Returns : System → Type 0
  Returns s = (s' : System) × (total : ℕ) × Follows s s' × (s'.phase ≡ returned total)

  returns :
      (f : ℕ) (s : System)
      → measure tasks measurement s ≤ f
      → Inv tasks measurement s
      → Created tasks measurement s.threads (created_to tasks measurement s.phase)
      → Returns s
  unfolding Returns
  returns zero s enough inv c = elim (proceeds s c) [
    | inl (total, e) ↦ (s, total, now, e)
    | inr (s', step) ↦ absurd (omega (arith, enough, Step-measure tasks measurement inv step))
  ]
  returns (suc f) s enough inv c = elim (proceeds s c) [
    | inl (total, e) ↦ (s, total, now, e)
    | inr (s', step) ↦
        let (t, total, follows, e) =
          returns f s' (omega (arith, enough, Step-measure tasks measurement inv step))
            (Step-Inv tasks measurement step inv) (Step-Created tasks measurement step c) in
        (t, total, next step follows, e)
  ]

  -- If the progress of every task is 0 at the start, run can go on to its return from every state that
  -- it reaches, with any threads cancelled or given up: it has no deadlock.
  pub run-returns :
      {n : ℕ} {s : System}
      → All (λ t. t.progress ≡ 0) tasks
      → Reach tasks measurement n s
      → (s' : System) × (total : ℕ) × Follows s s' × (s'.phase ≡ returned total)
  unfolding Returns
  run-returns {s} fresh r =
      returns (measure tasks measurement s) s (omega arith) (Reach-Inv tasks measurement fresh r)
        (Reach-Created tasks measurement r)
