-- ===== src/Mcp/Threads/Returning.antt =====
-- From every state in which no call has failed main can go on to its return.
use gogeta_fs_ae.Common.{
  ℕ, zero, suc, ◌≤◌, ◌<◌, ◌≡◌, ◌≢◌, refl, ap, sym, subst, Bool, true, false, List, [], ◌∷◌, length,
  min, dec_lt, ◌⊎◌, inl, inr, arith,
}
use gogeta_fs_ae.Mcp.Copy.{Files}
use gogeta_fs_ae.Mcp.Threads.{
  Job, reading, closing_src, closing_dst, writing, Thread, starting, at_jobs, busy, ended, Move,
  allocate, take_job, leave, read_some, read_end, write_some, written, close_src, close_dst, Phase,
  creating, joining, returned, exited, System, created_to, Step, create, created_all, join,
  joined_all, thread, Reach,
}
use gogeta_fs_ae.Mcp.Threads.Ending.{Bounded, Step-Bounded, Reach-Bounded, measure, Step-measure}

abbrev Moves : ℕ → Files → Thread → Type 0
Moves buf_len files t = (files' : Files) × (t' : Thread) × Move buf_len files t files' t'

-- A thread has ended or can move.
Thread-Moves :
    (buf_len : ℕ) (files : Files) (t u : Thread) → t ≡ u → (t ≡ ended) ⊎ Moves buf_len files t
Thread-Moves buf_len files t (starting jobs) e = inr (_, _, allocate e)
Thread-Moves buf_len files t (at_jobs []) e = inr (_, _, leave e)
Thread-Moves buf_len files t (at_jobs (job ∷ jobs)) e = inr (_, _, take_job e)
Thread-Moves buf_len files t (busy reading job jobs) e =
    elim (dec_lt 0 (min buf_len (length (files.src job.0)))) [
      | yes more ↦
          inr (_, _, read_some (min buf_len (length (files.src job.0))) e more (omega arith))
      | no none_left ↦ inr (_, _, read_end e (omega (arith, none_left)))
    ]
Thread-Moves buf_len files t (busy (writing []) job jobs) e = inr (_, _, written e)
Thread-Moves buf_len files t (busy (writing (b ∷ bytes)) job jobs) e =
    inr (_, _, write_some 1 e (omega arith) (omega arith))
Thread-Moves buf_len files t (busy closing_src job jobs) e = inr (_, _, close_src e)
Thread-Moves buf_len files t (busy closing_dst job jobs) e = inr (_, _, close_dst e)
Thread-Moves buf_len files t ended e = inl e

abbrev has_exited : Phase → Bool
has_exited exited = true
has_exited _ = false

module _ (buf_len : ℕ) (files₀ : Files) (jobs : List (List Job)) where
  -- The states that follow `s`.
  pub data Follows : System → System → Type 0 where
    now : {s : System} → Follows s s
    next : {s s' s'' : System} → Step buf_len files₀ jobs s s' → Follows s' s'' → Follows s s''

  abbrev Proceeds : System → Type 0
  Proceeds s = (s' : System) × Step buf_len files₀ jobs s s' × (has_exited s'.phase ≡ false)

  proceeds :
      (s : System) (p : Phase)
      → s.phase ≡ p
      → has_exited p ≡ false
      → (s.phase ≡ returned) ⊎ Proceeds s
  unfolding created_to
  proceeds s (creating i) e well = elim (dec_lt i (length jobs)) [
    | yes lt ↦ inr (_, create e lt, refl)
    | no ge ↦ inr (_, created_all e (omega (arith, ge)), refl)
  ]
  proceeds s (joining i) e well = elim (dec_lt i (length jobs)) [
    | yes lt ↦ elim (Thread-Moves buf_len s.files (s.threads i) (s.threads i) refl) [
      | inl over ↦ inr (_, join e lt over, refl)
      | inr (files', t, mv) ↦
          let created = subst (λ p. i < created_to buf_len files₀ jobs p) (sym e) lt in
          inr (_, thread i created mv, ap has_exited e)
    ]
    | no ge ↦ inr (_, joined_all e (omega (arith, ge)), refl)
  ]
  proceeds s returned e well = inl e
  proceeds s exited e well = absurd (grind (arith, well))

  abbrev Returns : System → Type 0
  Returns s = (s' : System) × Follows s s' × (s'.phase ≡ returned)

  returns :
      (f : ℕ) (s : System)
      → measure buf_len files₀ jobs s ≤ f
      → Bounded buf_len files₀ jobs s
      → has_exited s.phase ≡ false
      → Returns s
  returns zero s enough le well = elim (proceeds s s.phase refl well) [
    | inl e ↦ (s, now, e)
    | inr (s', step, well') ↦
        absurd (omega (arith, enough, Step-measure buf_len files₀ jobs step le))
  ]
  returns (suc f) s enough le well = elim (proceeds s s.phase refl well) [
    | inl e ↦ (s, now, e)
    | inr (s', step, well') ↦
        let (t, follows, e) =
          returns f s' (omega (arith, enough, Step-measure buf_len files₀ jobs step le))
            (Step-Bounded buf_len files₀ jobs step le) well' in
        (t, next step follows, e)
  ]

  not_exited : (p : Phase) → p ≢ exited → has_exited p ≡ false
  not_exited (creating i) ne = refl
  not_exited (joining i) ne = refl
  not_exited returned ne = refl
  not_exited exited ne = absurd (ne refl)

  -- Unless a call has failed, main can go on to its return from every state that it reaches: it has no
  -- deadlock.
  pub threads-return :
      {n : ℕ} {s : System}
      → Reach buf_len files₀ jobs n s
      → s.phase ≢ exited
      → (s' : System) × Follows s s' × (s'.phase ≡ returned)
  threads-return {s = s} r ne =
      returns (measure buf_len files₀ jobs s) s (omega arith) (Reach-Bounded buf_len files₀ jobs r)
        (not_exited s.phase ne)
