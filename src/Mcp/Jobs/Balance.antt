-- ===== src/Mcp/Jobs/Balance.antt =====
-- Every file is assigned to one thread, and no thread gets more than one file's bytes above another.
use mathlib.Core.List.{Perm}
use mathlib.Core.List.Perm
use gogeta_fs_ae.Common.{
  ℕ, zero, suc, ◌+◌, ◌^◌, ◌≤◌, ◌<◌, ◌≡◌, inl, inr, refl, ap, subst, ◌∙◌, some, List, [], ◌∷◌, ◌++◌,
  map, flat, All, length, length-replicate, get_elem?, lt_of_get_elem?, replicate, ok, err,
  out_of_bounds, ℕ_discrete, arith,
}
use gogeta_fs_ae.Mcp.Jobs.{
  FileWork, Load, pop_least, Plan, start_loads, start_plan, assign_work, assign_works, plan_jobs,
}
use gogeta_fs_ae.Mcp.Jobs.Loads.{NotBusy, Distinct, Occurs}
use gogeta_fs_ae.Mcp.Jobs.Rounds.{fds, bytes, Counts, Inv, assign_works-Assigned}

abbrev no_files : ℕ → List (List FileWork)
no_files n = replicate n []

-- The loads that the loop starts from.
start_loads-NotBusy : (n i j : ℕ) → j < i → NotBusy j (start_loads n i)
unfolding start_loads
start_loads-NotBusy zero i j lt = tt
start_loads-NotBusy (suc n) i j lt =
    ((λ e. omega (arith, e, lt)), start_loads-NotBusy n (suc i) j (omega (arith, lt)))

start_loads-Distinct : (n i : ℕ) → Distinct (start_loads n i)
unfolding start_loads
start_loads-Distinct zero i = tt
start_loads-Distinct (suc n) i =
    (start_loads-NotBusy n (suc i) i (omega arith), start_loads-Distinct n (suc i))

start_loads-zero : (P : Load → Type 0) (n i : ℕ) → ((j : ℕ) → P (0, j)) → All P (start_loads n i)
unfolding start_loads
start_loads-zero P zero i h = tt
start_loads-zero P (suc n) i h = (h i, start_loads-zero P n (suc i) h)

start_loads-Occurs : (n i j : ℕ) → i ≤ j → j < i + n → Occurs j (start_loads n i)
unfolding start_loads
start_loads-Occurs zero i j h k = absurd (omega (arith, h, k))
start_loads-Occurs (suc n) i j h k = elim (ℕ_discrete j i) [
  | yes e ↦ inl e
  | no ne ↦ inr (start_loads-Occurs n (suc i) j (omega (arith, h, ne)) (omega (arith, k)))
]

start_loads-Counts :
    (n i : ℕ) (ls : List (List FileWork))
    → ((j : ℕ) → i ≤ j → j < i + n → get_elem? ls j ≡ some [])
    → All (Counts ls) (start_loads n i)
unfolding start_loads
start_loads-Counts zero i ls h = tt
start_loads-Counts (suc n) i ls h = (
  ([], h i (omega arith) (omega arith), refl),
  start_loads-Counts n (suc i) ls (λ j low high. h j (omega (arith, low)) (omega (arith, high))),
)

get_elem?-replicate : (n i : ℕ) → i < n → get_elem? (no_files n) i ≡ some []
get_elem?-replicate zero i h = absurd (omega (arith, h))
get_elem?-replicate (suc n) zero h = refl
get_elem?-replicate (suc n) (suc i) h = get_elem?-replicate n i (omega (arith, h))

map-replicate : (n : ℕ) → replicate n [] ≡ map (map fds) (no_files n)
map-replicate zero = refl
map-replicate (suc n) = ap (◌∷◌ []) (map-replicate n)

flat-replicate : (n : ℕ) → flat (no_files n) ≡ []
flat-replicate zero = refl
flat-replicate (suc n) = flat-replicate n

Occurs-Counts :
    (assigned : List (List FileWork)) (i : ℕ) (q : List Load) (P : Load → Type 0)
    → Occurs i q
    → All (Counts assigned) q
    → All P q
    → (x : Load) × (i ≡ x.1) × Counts assigned x × P x
Occurs-Counts assigned i [] P o c a = absurd o
Occurs-Counts assigned i (x ∷ q) P (inl e) c a = (x, e, c.0, a.0)
Occurs-Counts assigned i (x ∷ q) P (inr o) c a = Occurs-Counts assigned i q P o c.1 a.1

All-index {ℓ κ} :
    {A : Type ℓ} {P : A → Type κ} (l : List A)
    → ((i : ℕ) (x : A) → get_elem? l i ≡ some x → P x)
    → All P l
All-index [] h = tt
All-index (x ∷ l) h = (h 0 x refl, All-index l (λ i y at. h (suc i) y at))

start-Inv : (most n : ℕ) → Inv most (start_plan n) (no_files n) 0
unfolding start_plan
start-Inv most n = record {
  descriptors = map-replicate n;
  counts =
      start_loads-Counts n 0 (no_files n)
        (λ j low high. get_elem?-replicate n j (omega (arith, high)));
  distinct = start_loads-Distinct n 0;
  everyone = λ i h.
      start_loads-Occurs n 0 i (omega arith)
        (omega (arith, h, length-replicate {A = List FileWork} n []));
  below = start_loads-zero (λ x. x.0 ≤ 0) n 0 (λ j. omega arith);
  balanced =
      start_loads-zero (λ x. All (λ y. x.0 ≤ y.0 + most) (start_loads n 0)) n 0
        (λ j. start_loads-zero (λ y. 0 ≤ y.0 + most) n 0 (λ k. omega arith));
}

-- With at least one thread, files of at most `most` bytes each and less than 2 ^ 64 in all, and a
-- sort that reorders them, the loop succeeds. Every file then stands with one thread, as often as it
-- was given, the jobs are the descriptors of these files, and no thread has more than `most` bytes
-- above any other.
pub plan_jobs-balanced :
    (sort : List FileWork → List FileWork) (thread_num most : ℕ) (files : List FileWork)
    → ((l : List FileWork) → Perm (sort l) l)
    → 1 ≤ thread_num
    → All (λ work. work.size ≤ most) (sort files)
    → bytes (sort files) < 2 ^ 64
    → (plan : Plan) × (assigned : List (List FileWork)) × (plan_jobs sort thread_num files
        ≡ ok plan)
      × (plan.jobs ≡ map (map fds) assigned)
      × (length assigned ≡ thread_num)
      × Perm (flat assigned) files
      × All (λ a. All (λ b. bytes a ≤ bytes b + most) assigned) assigned
unfolding plan_jobs
plan_jobs-balanced sort thread_num most files sorts some_thread small room =
    let size = length-replicate {A = List FileWork} thread_num [] in
    let r =
      assign_works-Assigned most (sort files) (start_plan thread_num) (no_files thread_num) 0
        (start-Inv most thread_num) (omega (arith, size, some_thread)) small
        (omega (arith, room)) in
    let v = r.holds in
    let given : flat (no_files thread_num) ++ sort files ≡ sort files =
      ap (λ l. l ++ sort files) (flat-replicate thread_num) in
    (
      r.plan,
      r.assigned,
      r.ends,
      v.descriptors,
      r.threads ∙ size,
      Perm.trans (subst (Perm (flat r.assigned)) given r.perm) (sorts files),
      All-index r.assigned (λ i a at_i.
          let (x, ei, ci, near) =
            Occurs-Counts r.assigned i r.plan.pq (λ x. All (λ y. x.0 ≤ y.0 + most) r.plan.pq)
              (v.everyone i (lt_of_get_elem? r.assigned i at_i)) v.counts v.balanced in
          let same_a = same_files r.assigned i x a ei at_i ci in
          All-index r.assigned (λ j b at_j.
            let (y, ej, cj, close) =
              Occurs-Counts r.assigned j r.plan.pq (λ y. x.0 ≤ y.0 + most)
                (v.everyone j (lt_of_get_elem? r.assigned j at_j)) v.counts near in
            let same_b = same_files r.assigned j y b ej at_j cj in
            omega (arith, same_a, same_b, close))),
    )
  where
    same_files :
        (assigned : List (List FileWork)) (i : ℕ) (x : Load) (a : List FileWork)
        → i ≡ x.1
        → get_elem? assigned i ≡ some a
        → Counts assigned x
        → x.0 ≡ bytes a
    same_files assigned i x a e at c = ground (arith, e, at, c.1, c.2)

-- With no thread and a file, top is called on an empty queue.
pub plan_jobs-no_thread :
    (sort : List FileWork → List FileWork) (work : FileWork) (rest files : List FileWork)
    → sort files ≡ work ∷ rest
    → plan_jobs sort 0 files ≡ err out_of_bounds
unfolding plan_jobs assign_works assign_work start_plan start_loads pop_least
plan_jobs-no_thread sort work rest files e = ap (assign_works (start_plan 0)) e
