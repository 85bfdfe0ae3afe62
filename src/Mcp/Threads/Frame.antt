-- ===== src/Mcp/Threads/Frame.antt =====
-- A step of one thread leaves the files of the others' jobs.
use gogeta_fs_ae.Common.{
  ℕ, zero, suc, ◌≡◌, ◌≢◌, refl, ap, sym, subst, List, [], ◌∷◌, ◌++◌, All, All-map, flat, take, drop,
  update-other,
}
use gogeta_fs_ae.Mcp.Copy.{Files}
use gogeta_fs_ae.Mcp.Copy.Whole.{Apart, Separate}
use gogeta_fs_ae.Mcp.Threads.{
  Job, Thread, starting, at_jobs, busy, ended, Move, allocate, take_job, leave, read_some, read_end,
  write_some, written, close_src, close_dst, jobs_at,
}

abbrev pub AllApart : List Job → List Job → Type 0
AllApart l r = All (λ job. All (Apart job) r) l

pub Apart-sym : (a b : Job) → Apart a b → Apart b a
Apart-sym a b (s, d) = ((λ e. s (sym e)), λ e. d (sym e))

pub All-parts : (P : Job → Type 0) (l r : List Job) → All P (l ++ r) → All P l × All P r
All-parts P [] r a = (tt, a)
All-parts P (x ∷ l) r a = let (b, c) = All-parts P l r a.1 in ((a.0, b), c)

-- Every job of `l` against every job of `r`, from the other side.
AllApart-nil : (l : List Job) → AllApart l []
AllApart-nil [] = tt
AllApart-nil (a ∷ l) = (tt, AllApart-nil l)

AllApart-cons : (l r : List Job) (b : Job) → All (Apart b) l → AllApart l r → AllApart l (b ∷ r)
AllApart-cons [] r b p a = tt
AllApart-cons (x ∷ l) r b p a = ((Apart-sym b x p.0, a.0), AllApart-cons l r b p.1 a.1)

pub AllApart-sym : (l r : List Job) → AllApart l r → AllApart r l
AllApart-sym [] r a = AllApart-nil r
AllApart-sym (x ∷ l) r a = AllApart-cons r l x a.0 (AllApart-sym l r a.1)

pub Separate-parts : (l r : List Job) → Separate (l ++ r) → Separate l × Separate r × AllApart l r
Separate-parts [] r s = (tt, s, tt)
Separate-parts (x ∷ l) r s =
    let (own, other, apart) = Separate-parts l r s.1 in
    let (here, there) = All-parts (Apart x) l r s.0 in ((here, own), other, (there, apart))

jobs_at-All :
    (P : Job → Type 0) (ls : List (List Job)) (i : ℕ) → All P (flat ls) → All P (jobs_at ls i)
unfolding jobs_at
jobs_at-All P [] i a = tt
jobs_at-All P (l ∷ ls) zero a = (All-parts P l (flat ls) a).0
jobs_at-All P (l ∷ ls) (suc i) a = jobs_at-All P ls i (All-parts P l (flat ls) a).1

pub jobs_at-Separate : (ls : List (List Job)) (i : ℕ) → Separate (flat ls) → Separate (jobs_at ls i)
unfolding jobs_at
jobs_at-Separate [] i s = tt
jobs_at-Separate (l ∷ ls) zero s = (Separate-parts l (flat ls) s).0
jobs_at-Separate (l ∷ ls) (suc i) s = jobs_at-Separate ls i (Separate-parts l (flat ls) s).1

pub jobs_at-AllApart :
    (ls : List (List Job)) (i j : ℕ)
    → i ≢ j
    → Separate (flat ls)
    → AllApart (jobs_at ls i) (jobs_at ls j)
unfolding jobs_at
jobs_at-AllApart [] i j ne s = tt
jobs_at-AllApart (l ∷ ls) zero zero ne s = absurd (ne refl)
jobs_at-AllApart (l ∷ ls) zero (suc j) ne s =
    All-map l (λ a p. jobs_at-All (Apart a) ls j p) (Separate-parts l (flat ls) s).2
jobs_at-AllApart (l ∷ ls) (suc i) zero ne s =
    AllApart-sym l (jobs_at ls i)
      (All-map l (λ a p. jobs_at-All (Apart a) ls i p) (Separate-parts l (flat ls) s).2)
jobs_at-AllApart (l ∷ ls) (suc i) (suc j) ne s =
    jobs_at-AllApart ls i j (λ e. ne (ap suc e)) (Separate-parts l (flat ls) s).1

-- The files of the jobs of `l` are the same.
abbrev pub Agree : Files → Files → List Job → Type 0
Agree files files' =
    All (λ job. (files'.src job.0 ≡ files.src job.0) × (files'.dst job.1 ≡ files.dst job.1))

pub Agree-refl : (files : Files) (l : List Job) → Agree files files l
Agree-refl files [] = tt
Agree-refl files (job ∷ l) = ((refl, refl), Agree-refl files l)

-- The job that a thread works on.
abbrev pub current : Thread → List Job
current (starting jobs) = []
current (at_jobs jobs) = []
current (busy point job jobs) = job ∷ []
current ended = []

pub Move-Agree :
    {buf_len : ℕ} {files files' : Files} {t t' : Thread} (l : List Job)
    → Move buf_len files t files' t'
    → AllApart (current t) l
    → Agree files files' l
Move-Agree {files = files} l (allocate e) a = Agree-refl files l
Move-Agree {files = files} l (take_job e) a = Agree-refl files l
Move-Agree {files = files} l (leave e) a = Agree-refl files l
Move-Agree {files = files} l (read_some {job} ret e some few) a =
    let apart = subst (λ t. AllApart (current t) l) e a in
    All-map l (λ j p. (update-other files.src job.0 j.0 (drop ret (files.src job.0)) p.0, refl))
      apart.0
Move-Agree {files = files} l (read_end e none) a = Agree-refl files l
Move-Agree {files = files} l (write_some {bytes} {job} ret e some few) a =
    let apart = subst (λ t. AllApart (current t) l) e a in
    All-map l
      (λ j p. (refl, update-other files.dst job.1 j.1 (files.dst job.1 ++ take ret bytes) p.1))
      apart.0
Move-Agree {files = files} l (written e) a = Agree-refl files l
Move-Agree {files = files} l (close_src e) a = Agree-refl files l
Move-Agree {files = files} l (close_dst e) a = Agree-refl files l
