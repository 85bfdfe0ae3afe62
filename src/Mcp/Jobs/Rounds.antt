-- ===== src/Mcp/Jobs/Rounds.antt =====
-- The loop over the files keeps the loads in step with the files that each thread has.
use mathlib.Core.List.{Perm, perm_middle}
use mathlib.Core.List.Perm
use gogeta_fs_ae.Common.{
  ℕ, zero, suc, ◌+◌, ◌%◌, ◌^◌, ◌≤◌, ◌<◌, ◌≡◌, refl, ap, sym, subst, ◌∙◌, some, List, [], ◌∷◌, ◌++◌,
  map, append_assoc, append-nil, flat, All, All-map, length, length-set, get_elem?,
  get_elem?-set_self, get_elem?-set_ne, lt_of_get_elem?, set, ok, >>=-ok, read, arith,
}
use gogeta_fs_ae.Mcp.Jobs.{FileWork, Load, Plan, assign_work, assign_works}
use gogeta_fs_ae.Mcp.Jobs.Loads.{
  All-Without, NotBusy, Distinct, Occurs, Distinct-Without, Occurs-Without, Least, pop_least-Least,
}

abbrev pub fds : FileWork → ℕ × ℕ
fds work = (work.src_fd, work.dst_fd)

-- The bytes of some files.
abbrev pub bytes : List FileWork → ℕ
bytes [] = 0
bytes (work ∷ files) = work.size + bytes files

bytes-append : (l r : List FileWork) → bytes (l ++ r) ≡ bytes l + bytes r
bytes-append [] r = omega arith
bytes-append (x ∷ l) r = omega (arith, bytes-append l r)

-- What a load says of the files of its thread.
abbrev pub Counts : List (List FileWork) → Load → Type 0
Counts assigned x =
    (files : List FileWork) × (get_elem? assigned x.1 ≡ some files) × (x.0 ≡ bytes files)

module _ (most : ℕ) where
  -- The files of each thread, `total` bytes in all.
  pub record Inv (p : Plan) (assigned : List (List FileWork)) (total : ℕ) : Type 0 where
    pub descriptors : p.jobs ≡ map (map fds) assigned
    pub counts : All (Counts assigned) p.pq
    pub distinct : Distinct p.pq
    pub everyone : (i : ℕ) → i < length assigned → Occurs i p.pq
    pub below : All (λ x. x.0 ≤ total) p.pq
    pub balanced : All (λ x. All (λ y. x.0 ≤ y.0 + most) p.pq) p.pq

get_elem?-map {ℓ κ} :
    {A : Type ℓ} {B : Type κ} (f : A → B) (l : List A) (i : ℕ) {x : A}
    → get_elem? l i ≡ some x
    → get_elem? (map f l) i ≡ some (f x)
get_elem?-map f [] i h = cc
get_elem?-map f (y ∷ l) zero h = cc
get_elem?-map f (y ∷ l) (suc i) h = get_elem?-map f l i h

map-set {ℓ κ} :
    {A : Type ℓ} {B : Type κ} (f : A → B) (l : List A) (i : ℕ) (x : A)
    → set (map f l) i (f x) ≡ map f (set l i x)
map-set f [] i x = refl
map-set f (y ∷ l) zero x = refl
map-set f (y ∷ l) (suc i) x = ap (◌∷◌ (f y)) (map-set f l i x)

map-append {ℓ κ} :
    {A : Type ℓ} {B : Type κ} (f : A → B) (l r : List A) → map f (l ++ r) ≡ map f l ++ map f r
map-append f [] r = refl
map-append f (x ∷ l) r = ap (◌∷◌ (f x)) (map-append f l r)

-- One file more for thread `i`.
flat-set :
    (ls : List (List FileWork)) (i : ℕ) (l : List FileWork) (x : FileWork)
    → get_elem? ls i ≡ some l
    → Perm (flat (set ls i (l ++ x ∷ []))) (x ∷ flat ls)
flat-set [] i l x h = cc
flat-set (k ∷ ls) zero l x h =
    let same : k ≡ l = cc in
    subst (λ r. Perm ((l ++ x ∷ []) ++ flat ls) (x ∷ (r ++ flat ls))) (sym same)
      (subst (λ r. Perm r (x ∷ (l ++ flat ls))) (sym (append_assoc l (x ∷ []) (flat ls)))
        (perm_middle l (flat ls)))
flat-set (k ∷ ls) (suc i) l x h =
    Perm.trans (Perm.append_left k (flat-set ls i l x h)) (perm_middle k (flat ls))

-- A change of one thread's files leaves the loads of the others.
Counts-set :
    (assigned : List (List FileWork)) (i : ℕ) (files : List FileWork) (q : List Load)
    → NotBusy i q
    → All (Counts assigned) q
    → All (Counts (set assigned i files)) q
Counts-set assigned i files [] n a = tt
Counts-set assigned i files (x ∷ q) n a = (
  (a.0.0, get_elem?-set_ne assigned i x.1 files n.0 ∙ a.0.1, a.0.2),
  Counts-set assigned i files q n.1 a.1,
)

Occurs-Least : (i : ℕ) (q : List Load) → Occurs i q → Least q
Occurs-Least i [] o = absurd o
Occurs-Least i (x ∷ q) o = pop_least-Least x q

module _ (most : ℕ) where
  -- A round of the loop: `files` are those of the thread with the least bytes.
  module _ (p : Plan) (assigned : List (List FileWork)) (total : ℕ) (work : FileWork)
      (v : Inv most p assigned total) (l : Least p.pq) (files : List FileWork)
      (has : get_elem? assigned l.least.1 ≡ some files) (count : l.least.0 ≡ bytes files)
      (small : work.size ≤ most) (room : total + work.size < 2 ^ 64) where
    thread : ℕ
    thread = l.least.1

    more : ℕ
    more = l.least.0 + work.size

    least-le : l.least.0 ≤ total
    least-le = (All-Without (λ x. x.0 ≤ total) l.without v.below).0

    next_plan : Plan
    next_plan = record {
      pq = (more, thread) ∷ l.rest;
      jobs = set p.jobs thread (map fds files ++ fds work ∷ []);
    }

    next_assigned : List (List FileWork)
    next_assigned = set assigned thread (files ++ work ∷ [])

    round-eq : assign_work p work ≡ ok next_plan
    unfolding assign_work next_plan thread more least-le
    round-eq =
        let wraps : (l.least.0 + work.size) % 2 ^ 64 ≡ l.least.0 + work.size =
          omega (arith, least-le, room) in
        let job =
          ap (λ j. get_elem? j l.least.1) v.descriptors
          ∙ get_elem?-map (map fds) assigned l.least.1 has in
        >>=-ok _ (ap read l.popped)
        ∙ >>=-ok _ (ap read job)
        ∙ ap
            (λ n. ok (record {
              pq = (n, l.least.1) ∷ l.rest;
              jobs = set p.jobs l.least.1 (map fds files ++ fds work ∷ []);
            }))
            wraps

    round-Inv : Inv most next_plan next_assigned (total + work.size)
    unfolding next_plan next_assigned thread more least-le
    round-Inv =
        let (new, distinct) = Distinct-Without l.without v.distinct in
        let (own, others) = All-Without (Counts assigned) l.without v.counts in
        let (low, lows) = All-Without (λ x. x.0 ≤ total) l.without v.below in
        let (least_low, smallest) = All-Without (λ y. l.least.0 ≤ y.0) l.without l.smallest in
        let (own_pairs, pairs) =
          All-Without (λ x. All (λ y. x.0 ≤ y.0 + most) p.pq) l.without v.balanced in
        record {
          descriptors =
              ap (λ j. set j thread (map fds files ++ fds work ∷ [])) v.descriptors
              ∙ ap (set (map (map fds) assigned) thread) (sym (map-append fds files (work ∷ [])))
              ∙ map-set (map fds) assigned thread (files ++ work ∷ []);
          counts = (
            (
              files ++ work ∷ [],
              get_elem?-set_self assigned thread (files ++ work ∷ [])
                  (lt_of_get_elem? assigned thread has),
              omega (arith, bytes-append files (work ∷ []), count),
            ),
            Counts-set assigned thread (files ++ work ∷ []) l.rest new others,
          );
          distinct = (new, distinct);
          everyone = λ i h.
              Occurs-Without i l.without
                (v.everyone i (omega (arith, h, length-set assigned thread (files ++ work ∷ []))));
          below = (
            omega (arith, least-le),
            All-map l.rest (λ (x : Load) (h : x.0 ≤ total). omega (arith, h)) lows,
          );
          balanced = (
            (
              omega arith,
              All-map l.rest (λ (y : Load) (h : l.least.0 ≤ y.0). omega (arith, h, small)) smallest,
            ),
            All-map l.rest
                (λ (x : Load) (h : All (λ y. x.0 ≤ y.0 + most) p.pq).
                  let (near, rest) = All-Without (λ y. x.0 ≤ y.0 + most) l.without h in
                  (omega (arith, near), rest))
                pairs,
          );
        }

  pub record Assigned (p : Plan) (files : List FileWork) (before : List (List FileWork)) (total : ℕ)
      : Type 0 where
    pub plan : Plan
    pub assigned : List (List FileWork)
    pub ends : assign_works p files ≡ ok plan
    pub holds : Inv most plan assigned total
    pub threads : length assigned ≡ length before
    pub perm : Perm (flat assigned) (flat before ++ files)

  pub assign_works-Assigned :
      (files : List FileWork) (p : Plan) (assigned : List (List FileWork)) (total : ℕ)
      → Inv most p assigned total
      → 1 ≤ length assigned
      → All (λ work. work.size ≤ most) files
      → total + bytes files < 2 ^ 64
      → Assigned p files assigned (total + bytes files)
  unfolding assign_works next_assigned thread Occurs-Least
  assign_works-Assigned [] p assigned total v some_thread small room = record {
    plan = p;
    assigned = assigned;
    ends = refl;
    holds = subst (Inv most p assigned) (omega arith) v;
    threads = refl;
    perm =
        subst (Perm (flat assigned)) (sym (append-nil (flat assigned))) (Perm.refl (flat assigned));
  }
  assign_works-Assigned (work ∷ files) p assigned total v some_thread small room =
      let l = Occurs-Least 0 p.pq (v.everyone 0 some_thread) in
      let (own, has, count) = (All-Without (Counts assigned) l.without v.counts).0 in
      let bound : total + work.size < 2 ^ 64 = omega (arith, room) in
      let p' = next_plan p assigned total work v l own has count small.0 bound in
      let assigned' = next_assigned p assigned total work v l own has count small.0 bound in
      let same = length-set assigned l.least.1 (own ++ work ∷ []) in
      let r =
        assign_works-Assigned files p' assigned' (total + work.size)
          (round-Inv p assigned total work v l own has count small.0 bound)
          (omega (arith, same, some_thread)) small.1 (omega (arith, room)) in
      record {
        plan = r.plan;
        assigned = r.assigned;
        ends = >>=-ok _ (round-eq p assigned total work v l own has count small.0 bound) ∙ r.ends;
        holds = subst (Inv most r.plan r.assigned) (omega arith) r.holds;
        threads = r.threads ∙ same;
        perm = Perm.trans r.perm (
            Perm.trans (Perm.append_right files (flat-set assigned l.least.1 own work has))
              (Perm.symm (perm_middle (flat assigned) files)));
      }
