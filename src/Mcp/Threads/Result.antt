-- ===== src/Mcp/Threads/Result.antt =====
-- What the files hold when main returns.
use gogeta_fs_ae.Common.{
  ℕ, suc, ◌≤◌, ◌<◌, ◌≡◌, refl, ap, sym, subst, ◌∙◌, Bool, true, false, List, [], ◌∷◌, append-nil,
  All, All-append, flat, length, update-each, update-All, ℕ_discrete, arith,
}
use gogeta_fs_ae.Mcp.Copy.{Files}
use gogeta_fs_ae.Mcp.Copy.Whole.{Separate, Copied}
use gogeta_fs_ae.Mcp.Threads.{
  Job, Thread, starting, at_jobs, busy, ended, Move, allocate, take_job, leave, read_some, read_end,
  write_some, written, close_src, close_dst, Phase, creating, joining, returned, exited, System,
  jobs_at, Step, create, created_all, join, joined_all, thread, fail, Reach, start, later,
}
use gogeta_fs_ae.Mcp.Threads.Frame.{
  AllApart, All-parts, jobs_at-Separate, jobs_at-AllApart, current, Move-Agree,
}
use gogeta_fs_ae.Mcp.Threads.Invariant.{Own, Untouched-refl, Own-Agree, Move-Own}

current-AllApart :
    (files₀ files : Files) (l r : List Job) (t : Thread)
    → Own files₀ files l t
    → AllApart l r
    → AllApart (current t) r
current-AllApart files₀ files l r (starting jobs) o a = tt
current-AllApart files₀ files l r (at_jobs jobs) o a = tt
current-AllApart files₀ files l r (busy p job jobs) o a =
    ((All-parts _ o.done (job ∷ jobs) (subst (λ m. AllApart m r) (sym o.split) a)).1.0, tt)
current-AllApart files₀ files l r ended o a = tt

abbrev is_ended : Thread → Bool
is_ended ended = true
is_ended _ = false

Move-not_ended :
    {buf_len : ℕ} {files files' : Files} {t t' : Thread}
    → Move buf_len files t files' t'
    → is_ended t ≡ false
Move-not_ended (allocate e) = ap is_ended e
Move-not_ended (take_job e) = ap is_ended e
Move-not_ended (leave e) = ap is_ended e
Move-not_ended (read_some ret e some few) = ap is_ended e
Move-not_ended (read_end e none) = ap is_ended e
Move-not_ended (write_some ret e some few) = ap is_ended e
Move-not_ended (written e) = ap is_ended e
Move-not_ended (close_src e) = ap is_ended e
Move-not_ended (close_dst e) = ap is_ended e

flat-All :
    (P : Job → Type 0) (ls : List (List Job))
    → ((i : ℕ) → i < length ls → All P (jobs_at ls i))
    → All P (flat ls)
unfolding jobs_at
flat-All P [] h = tt
flat-All P (l ∷ ls) h =
    All-append P l (flat ls) (h 0 (omega arith))
      (flat-All P ls (λ i lt. h (suc i) (omega (arith, lt))))

still_runs : {A : Type 0} {b : Bool} → b ≡ true → b ≡ false → A
still_runs e e' = absurd (grind (arith, e, e'))

module _ (buf_len : ℕ) (files₀ : Files) (jobs : List (List Job)) where
  -- The threads that main has joined.
  abbrev joined_to : Phase → ℕ
  joined_to (creating i) = 0
  joined_to (joining i) = i
  joined_to returned = length jobs
  joined_to exited = 0

  pub record Inv (s : System) : Type 0 where
    pub own : (i : ℕ) → Own files₀ s.files (jobs_at jobs i) (s.threads i)
    pub joined : (i : ℕ) → i < joined_to s.phase → s.threads i ≡ ended

  abbrev joined_at :
      (s : System) {p : Phase}
      → Inv s
      → s.phase ≡ p
      → (i : ℕ) → i < joined_to p
      → s.threads i ≡ ended
  joined_at s inv e = subst (λ p. (i : ℕ) → i < joined_to p → s.threads i ≡ ended) e inv.joined

  module _ (some_room : 1 ≤ buf_len) (separate : Separate (flat jobs)) where
    Step-Inv : {s s' : System} → Step buf_len files₀ jobs s s' → Inv s → Inv s'
    Step-Inv (create e lt) inv = record {
      own = inv.own;
      joined = λ i lt'. absurd (omega (arith, lt'));
    }
    Step-Inv (created_all e le) inv = record {
      own = inv.own;
      joined = λ i lt'. absurd (omega (arith, lt'));
    }
    Step-Inv {s} (join {i = k} e lt over) inv = record {
      own = inv.own;
      joined = λ i lt'. elim (ℕ_discrete i k) [
        | yes same ↦ ap s.threads same ∙ over
        | no other ↦ joined_at s inv e i (omega (arith, lt', other))
      ];
    }
    Step-Inv {s} (joined_all e le) inv = record {
      own = inv.own;
      joined = λ i lt. joined_at s inv e i (omega (arith, lt, le));
    }
    Step-Inv {s} (thread i {files'} {t} lt mv) inv = record {
      own =
          update-each (λ j x. Own files₀ files' (jobs_at jobs j) x) s.threads i t
            (Move-Own files₀ buf_len some_room (jobs_at-Separate jobs i separate) mv (inv.own i))
            (λ j other.
              Own-Agree files₀ s.files files' (jobs_at jobs j) (s.threads j)
                (Move-Agree (jobs_at jobs j) mv (
                  current-AllApart files₀ s.files (jobs_at jobs i) (jobs_at jobs j) (s.threads i)
                    (inv.own i) (jobs_at-AllApart jobs i j (λ e. other (sym e)) separate)))
                (inv.own j));
      joined =
          update-All (λ j x. j < joined_to s.phase → x ≡ ended) s.threads i t
            (λ below. still_runs (ap is_ended (inv.joined i below)) (Move-not_ended mv)) inv.joined;
    }
    Step-Inv (fail i lt may) inv = record {
      own = inv.own;
      joined = λ j lt'. absurd (omega (arith, lt'));
    }

    Reach-Inv : {n : ℕ} {s : System} → Reach buf_len files₀ jobs n s → Inv s
    Reach-Inv start = record {
      own = λ i. record {
        done = [];
        split = refl;
        copied = tt;
        now = Untouched-refl files₀ (jobs_at jobs i);
      };
      joined = λ i lt. absurd (omega (arith, lt));
    }
    Reach-Inv (later r step) = Step-Inv step (Reach-Inv r)

    Own-ended :
        (files : Files) (l : List Job) {t : Thread}
        → Own files₀ files l t
        → t ≡ ended
        → Copied files₀ files l
    Own-ended files l o e =
        let v = subst (Own files₀ files l) e o in
        subst (Copied files₀ files) (sym (append-nil v.done) ∙ v.split) v.copied

    -- With a buffer of at least a byte and jobs of different descriptors: in any order of the threads'
    -- steps, and however the system splits the transfers, when main returns, every file is copied
    -- whole: each destination has the bytes of its source behind what it had.
    pub threads-Copied :
        {n : ℕ} {s : System}
        → Reach buf_len files₀ jobs n s
        → s.phase ≡ returned
        → Copied files₀ s.files (flat jobs)
    threads-Copied {n} {s} r e =
        let inv = Reach-Inv r in
        flat-All _ jobs
          (λ i lt. Own-ended s.files (jobs_at jobs i) (inv.own i) (joined_at s inv e i lt))
