-- ===== src/Mcp/Threads/Invariant.antt =====
-- What holds of the files and of every thread in every state.
use gogeta_fs_ae.Common.{
  ℕ, ◌≤◌, ◌≡◌, refl, ap, ap₂, sym, subst, ◌∙◌, List, [], ◌∷◌, ◌++◌, append-nil, append_assoc,
  take-append-drop, All, All-append, nil_of_length, take, drop, update-same, arith,
}
use gogeta_fs_ae.Mcp.Copy.{Files}
use gogeta_fs_ae.Mcp.Copy.Whole.{Separate, Copied}
use gogeta_fs_ae.Mcp.Threads.{
  Job, Point, reading, closing_src, closing_dst, writing, Thread, starting, at_jobs, busy, ended,
  Move, allocate, take_job, leave, read_some, read_end, write_some, written, close_src, close_dst,
}
use gogeta_fs_ae.Mcp.Threads.Frame.{
  AllApart, AllApart-sym, All-parts, Separate-parts, Agree, current, Move-Agree,
}

-- The jobs that a thread has before it.
abbrev pub left : Thread → List Job
left (starting jobs) = jobs
left (at_jobs jobs) = jobs
left (busy point job jobs) = job ∷ jobs
left ended = []

module _ (files₀ : Files) where
  -- The bytes that a job's destination has at its end.
  abbrev whole : Job → List ℕ
  whole job = files₀.dst job.1 ++ files₀.src job.0

  abbrev Untouched : Files → List Job → Type 0
  Untouched files =
      All (λ job. (files.src job.0 ≡ files₀.src job.0) × (files.dst job.1 ≡ files₀.dst job.1))

  pub Untouched-refl : (l : List Job) → Untouched files₀ l
  Untouched-refl [] = tt
  Untouched-refl (job ∷ l) = ((refl, refl), Untouched-refl l)

  -- What was written, what is in the buffer and what is still to be read make the whole.
  abbrev At : Files → Point → Job → Type 0
  At files reading job = files.dst job.1 ++ files.src job.0 ≡ whole job
  At files (writing bytes) job = files.dst job.1 ++ (bytes ++ files.src job.0) ≡ whole job
  At files closing_src job = files.dst job.1 ≡ whole job
  At files closing_dst job = files.dst job.1 ≡ whole job

  abbrev Current : Files → Thread → Type 0
  Current files (starting jobs) = Untouched files jobs
  Current files (at_jobs jobs) = Untouched files jobs
  Current files (busy point job jobs) = At files point job × Untouched files jobs
  Current files ended = Unit

  -- A thread with the jobs `l` has copied those that are not left.
  pub record Own (files : Files) (l : List Job) (t : Thread) : Type 0 where
    pub done : List Job
    pub split : done ++ left t ≡ l
    pub copied : Copied files₀ files done
    pub now : Current files t

  Copied-Agree :
      (files files' : Files) (l : List Job)
      → Agree files files' l
      → Copied files₀ files l
      → Copied files₀ files' l
  Copied-Agree files files' [] a c = tt
  Copied-Agree files files' (job ∷ l) a c = (a.0.1 ∙ c.0, Copied-Agree files files' l a.1 c.1)

  Untouched-Agree :
      (files files' : Files) (l : List Job)
      → Agree files files' l
      → Untouched files l
      → Untouched files' l
  Untouched-Agree files files' [] a u = tt
  Untouched-Agree files files' (job ∷ l) a u =
      ((a.0.0 ∙ u.0.0, a.0.1 ∙ u.0.1), Untouched-Agree files files' l a.1 u.1)

  At-Agree :
      (files files' : Files) (job : Job) (p : Point)
      → files'.src job.0 ≡ files.src job.0
      → files'.dst job.1 ≡ files.dst job.1
      → At files p job
      → At files' p job
  At-Agree files files' job reading s d a = ap₂ (λ x y. x ++ y) d s ∙ a
  At-Agree files files' job (writing bytes) s d a = ap₂ (λ x y. x ++ (bytes ++ y)) d s ∙ a
  At-Agree files files' job closing_src s d a = d ∙ a
  At-Agree files files' job closing_dst s d a = d ∙ a

  Current-Agree :
      (files files' : Files) (t : Thread)
      → Agree files files' (left t)
      → Current files t
      → Current files' t
  Current-Agree files files' (starting jobs) a c = Untouched-Agree files files' jobs a c
  Current-Agree files files' (at_jobs jobs) a c = Untouched-Agree files files' jobs a c
  Current-Agree files files' (busy p job jobs) a c =
      (At-Agree files files' job p a.0.0 a.0.1 c.0, Untouched-Agree files files' jobs a.1 c.1)
  Current-Agree files files' ended a c = tt

  -- Steps on other files leave it.
  pub Own-Agree :
      (files files' : Files) (l : List Job) (t : Thread)
      → Agree files files' l
      → Own files l t
      → Own files' l t
  Own-Agree files files' l t a o =
      let (before, behind) =
        All-parts _ o.done (left t) (subst (Agree files files') (sym o.split) a) in
      record {
        done = o.done;
        split = o.split;
        copied = Copied-Agree files files' o.done before o.copied;
        now = Current-Agree files files' t behind o.now;
      }

  module _ (buf_len : ℕ) (some_room : 1 ≤ buf_len) where
    -- A step inside a job leaves the thread's other jobs.
    inside :
        {files files' : Files} {l : List Job} {t t' : Thread} {job : Job} {jobs : List Job}
        {p : Point}
        → Separate l
        → Move buf_len files t files' t'
        → current t ≡ job ∷ []
        → (o : Own files l (busy p job jobs)) → Copied files₀ files' o.done × Untouched files' jobs
    inside {files} {files'} {l} {t} {t'} {job} {jobs} {p} s mv e o =
        let (s₁, s₂, apart) = Separate-parts o.done (job ∷ jobs) (subst Separate (sym o.split) s) in
        let here = λ (r : List Job) (a : AllApart (job ∷ []) r).
          Move-Agree r mv (subst (λ c. AllApart c r) (sym e) a) in
        (
          Copied-Agree files files' o.done
              (here o.done ((AllApart-sym o.done (job ∷ jobs) apart).0, tt)) o.copied,
          Untouched-Agree files files' jobs (here jobs (s₂.0, tt)) o.now.1,
        )

    at_thread :
        {files : Files} {l : List Job} {t t' : Thread} → t ≡ t' → Own files l t → Own files l t'
    at_thread {files} {l} e o = subst (Own files l) e o

    pub Move-Own :
        {files files' : Files} {l : List Job} {t t' : Thread}
        → Separate l
        → Move buf_len files t files' t'
        → Own files l t
        → Own files' l t'
    Move-Own s (allocate e) o =
        let v = at_thread e o in
        record { done = v.done; split = v.split; copied = v.copied; now = v.now }
    Move-Own {files} s (take_job e) o =
        let v = at_thread e o in
        record {
          done = v.done;
          split = v.split;
          copied = v.copied;
          now = (ap₂ (λ x y. x ++ y) v.now.0.1 v.now.0.0, v.now.1);
        }
    Move-Own s (leave e) o =
        let v = at_thread e o in
        record { done = v.done; split = v.split; copied = v.copied; now = tt }
    Move-Own {files} s (read_some {job} {jobs} ret e some few) o =
        let v = at_thread e o in
        let (copied, untouched) = inside s (read_some ret e some few) (ap current e) v in
        let src = files.src job.0 in
        let rest = update-same files.src job.0 (drop ret src) in
        record {
          done = v.done;
          split = v.split;
          copied = copied;
          now = (
            ap (λ x. files.dst job.1 ++ (take ret src ++ x)) rest
                ∙ ap (λ x. files.dst job.1 ++ x) (take-append-drop ret src)
                ∙ v.now.0,
            untouched,
          );
        }
    Move-Own {files} s (read_end {job} e none) o =
        let v = at_thread e o in
        let empty = nil_of_length (files.src job.0) (omega (arith, some_room, none)) in
        record {
          done = v.done;
          split = v.split;
          copied = v.copied;
          now = (
            sym (append-nil (files.dst job.1))
                ∙ ap (λ x. files.dst job.1 ++ x) (sym empty)
                ∙ v.now.0,
            v.now.1,
          );
        }
    Move-Own {files} s (write_some {bytes} {job} {jobs} ret e some few) o =
        let v = at_thread e o in
        let (copied, untouched) = inside s (write_some ret e some few) (ap current e) v in
        let src = files.src job.0 in
        let dst = files.dst job.1 in
        let more = update-same files.dst job.1 (dst ++ take ret bytes) in
        record {
          done = v.done;
          split = v.split;
          copied = copied;
          now = (
            ap (λ x. x ++ (drop ret bytes ++ src)) more
                ∙ append_assoc dst (take ret bytes) (drop ret bytes ++ src)
                ∙ ap (λ x. dst ++ x) (sym (append_assoc (take ret bytes) (drop ret bytes) src))
                ∙ ap (λ x. dst ++ (x ++ src)) (take-append-drop ret bytes)
                ∙ v.now.0,
            untouched,
          );
        }
    Move-Own s (written e) o =
        let v = at_thread e o in
        record { done = v.done; split = v.split; copied = v.copied; now = v.now }
    Move-Own s (close_src e) o =
        let v = at_thread e o in
        record { done = v.done; split = v.split; copied = v.copied; now = v.now }
    Move-Own {files} s (close_dst {job} {jobs} e) o =
        let v = at_thread e o in
        record {
          done = v.done ++ job ∷ [];
          split = append_assoc v.done (job ∷ []) jobs ∙ v.split;
          copied = All-append _ v.done (job ∷ []) v.copied (v.now.0, tt);
          now = v.now.1;
        }
