-- ===== src/Interference/Threads/Created.antt =====
-- A thread that main waits for was created.
use gogeta_fs_ae.Common.{
  ℕ, ◌<◌, ◌≡◌, refl, ap, subst, ◌∙◌, Bool, true, false, List, length, ◌==◌, if◌then◌else◌,
  Bool-cases, inl, inr, update-All, arith,
}
use gogeta_fs_ae.Interference.{Task}
use gogeta_fs_ae.Interference.Threads.{
  Status, absent, created, Thread, Move, begin, write_one, leave, give_up, stop, Phase, creating,
  System, Step, create, created_all, join, joined_all, cancel, cancelled_all, add, added_all,
  thread, Reach, start, later,
}

abbrev pub is_absent : Status → Bool
is_absent absent = true
is_absent _ = false

Move-is_absent : {n : ℕ} {t t' : Thread} → Move n t t' → is_absent t'.status ≡ false
Move-is_absent (begin e) = refl
Move-is_absent (write_one e lt) = refl
Move-is_absent (leave e le) = refl
Move-is_absent (give_up e) = refl
Move-is_absent (stop e c) = refl

module _ (tasks : List Task) (measurement : ℕ) where
  -- The index up to which threads were created.
  abbrev pub created_to : Phase → ℕ
  created_to (creating i) = i
  created_to _ = length tasks

  abbrev pub Created : (ℕ → Thread) → ℕ → Type 0
  Created threads n = (j : ℕ) → j < n → is_absent (threads j).status ≡ false

  abbrev at_creating :
      (s : System) {p : Phase}
      → Created s.threads (created_to s.phase)
      → s.phase ≡ p
      → Created s.threads (created_to p)
  at_creating s c e = subst (λ p. Created s.threads (created_to p)) e c

  pub Step-Created :
      {s s' : System}
      → Step tasks measurement s s'
      → Created s.threads (created_to s.phase)
      → Created s'.threads (created_to s'.phase)
  Step-Created {s} (create {i} e lt) c =
      let before = at_creating s c e in
      let t : Thread = record {
        status = created;
        progress = (s.threads i).progress;
        cancelled = false;
      } in
      λ j below. elim (Bool-cases (j == i)) [
        | inl same ↦ ap (λ b. is_absent (if b then t else s.threads j).status) same
        | inr other ↦
            ap (λ b. is_absent (if b then t else s.threads j).status) other
            ∙ before j (ground (arith, below, other))
      ]
  Step-Created {s} (created_all e le) c = λ j below. at_creating s c e j (omega (arith, below, le))
  Step-Created {s} (join e lt over) c = at_creating s c e
  Step-Created {s} (joined_all e le) c = at_creating s c e
  Step-Created {s} (cancel {i} e lt) c =
      let before = at_creating s c e in
      let t : Thread = record {
        status = (s.threads i).status;
        progress = (s.threads i).progress;
        cancelled = true;
      } in
      update-All (λ j x. j < length tasks → is_absent x.status ≡ false) s.threads i t (before i)
        before
  Step-Created {s} (cancelled_all e le) c = at_creating s c e
  Step-Created {s} (add e lt) c = at_creating s c e
  Step-Created {s} (added_all e le) c = at_creating s c e
  Step-Created {s} (thread i {t} lt mv) c =
      update-All (λ j x. j < created_to s.phase → is_absent x.status ≡ false) s.threads i t
        (λ below. Move-is_absent mv) c

  pub Reach-Created :
      {n : ℕ} {s : System} → Reach tasks measurement n s → Created s.threads (created_to s.phase)
  Reach-Created start = λ j below. absurd (omega (arith, below))
  Reach-Created (later r step) = Step-Created step (Reach-Created r)
