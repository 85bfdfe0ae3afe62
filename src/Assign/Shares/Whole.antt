-- ===== src/Assign/Shares/Whole.antt =====
-- The distribution hands every sector's traces as a whole to one worker.
use gogeta_fs_ae.Common.{
  flat, flat-append, ℕ, zero, suc, ◌+◌, ◌-◌, ◌/◌, ◌%◌, ◌^◌, ◌≡◌, ◌≤◌, inr, refl, ap, sym, subst,
  ◌∙◌, Bool, true, false, none, List, [], ◌∷◌, ◌++◌, append_assoc, append-nil, ◌==◌, length,
  length-append, get_elem?, set, replicate, length-replicate, ok, >>=-ok, read, arith,
}
use gogeta_fs_ae.Trace.{TraceInfo}
use gogeta_fs_ae.Container.{TraceContainer}
use gogeta_fs_ae.Container.Contents.{Contains, add_collection-Contains}
use gogeta_fs_ae.Gather.{Heap}
use gogeta_fs_ae.Assign.Shares.{
  create_tcs, Shares, after_add, hand_out, hand_out_all, share_containers,
}
use gogeta_fs_ae.Assign.Shares.Groups.{
  AllContain, Owned, Owned-free, AllContain-at, AllContain-create,
}
use gogeta_fs_ae.Assign.Shares.Guards.{Spread, Paced, before_add-Kept, after_add-Kept}

module _ (realloc : ℕ → Bool) (mem : (bytes : ℕ) → realloc bytes ≡ true) (rand : ℕ → ℕ)
    (threads per_thread_lines : ℕ) where
  length-now :
      (flat_before now done : List (List TraceInfo))
      → flat_before ++ now ≡ done
      → length (flat now) ≤ length (flat done)
  length-now flat_before now done e = omega (
    arith,
    ap (λ l. length (flat l)) e,
    ap length (flat-append flat_before now),
    length-append (flat flat_before) (flat now),
  )

  -- One round: the group goes to one worker, behind the groups that it has.
  record Handed (s : Shares) (p : ℕ) (ps : List ℕ) (done gs : List (List TraceInfo)) : Type 0 where
    s' : Shares
    ends : hand_out realloc rand threads per_thread_lines s p ≡ ok s'
    spread : Spread realloc mem rand threads per_thread_lines s'.tcs s'.cur_thread done
    paced : Paced realloc mem rand threads per_thread_lines s'
    owned : Owned s'.heap ps gs

  hand_out-Handed :
      (s : Shares) (p : ℕ) (ps : List ℕ) (done : List (List TraceInfo)) (g : List TraceInfo)
      (gs : List (List TraceInfo))
      → Spread realloc mem rand threads per_thread_lines s.tcs s.cur_thread done
      → Paced realloc mem rand threads per_thread_lines s
      → Owned s.heap (p ∷ ps) (g ∷ gs)
      → length (flat done) + length g ≤ 2 ^ 30
      → Handed s p ps (done ++ g ∷ []) gs
  unfolding hand_out
  hand_out-Handed s p ps done g gs v paced o small =
      let (collection, at, c) = o.0 in
      let (s₁, e₁, k₁) =
        before_add-Kept realloc mem rand threads per_thread_lines s collection.size done v paced in
      let u = k₁.spread in
      let (tc, at_tc, holds, put) =
        AllContain-at s₁.tcs u.before u.now (replicate u.later []) u.all in
      let (tc', e₂, holds') =
        add_collection-Contains realloc mem tc collection (flat u.now) g holds c
          (omega (arith, length-now (flat u.before) u.now done u.groups)) in
      let s₂ : Shares = record s₁ {
        tcs = set s₁.tcs s₁.cur_thread tc';
        heap = set s₁.heap p none;
        cur_thread_lines = (s₁.cur_thread_lines + collection.size) % 2 ^ 64;
      } in
      let now' : List (List TraceInfo) = u.now ++ g ∷ [] in
      let appended : flat u.now ++ g ≡ flat now' =
        ap (λ r. flat u.now ++ r) (sym (append-nil g)) ∙ sym (flat-append u.now (g ∷ [])) in
      let v₂ : Spread realloc mem rand threads per_thread_lines s₂.tcs s₂.cur_thread
          (done ++ g ∷ []) =
        record {
          before = u.before;
          now = now';
          later = u.later;
          all =
              subst (λ i. AllContain (set s₁.tcs i tc') (u.before ++ (now' ∷ replicate u.later [])))
                (sym u.at) (put tc' now' (subst (Contains tc') appended holds'));
          at = u.at;
          total = u.total;
          groups =
              sym (append_assoc (flat u.before) u.now (g ∷ [])) ∙ ap (λ l. l ++ g ∷ []) u.groups;
        } in
      let k₂ = after_add-Kept realloc mem rand threads per_thread_lines s₂ (done ++ g ∷ []) v₂ in
      record {
        s' = after_add realloc rand threads per_thread_lines s₂;
        ends =
            >>=-ok _ at
            ∙ >>=-ok _ e₁
            ∙ >>=-ok _ (ap read (ap (get_elem? s₁.tcs) u.at ∙ at_tc))
            ∙ >>=-ok _ e₂;
        spread = k₂.spread;
        paced = k₂.paced;
        owned =
            subst (λ h. Owned h ps gs) (sym (k₂.heap ∙ ap (λ h. set h p none) k₁.heap))
              (Owned-free s.heap p ps gs o.1 o.2);
      }

  hand_out_all-Spread :
      (s : Shares) (ps : List ℕ) (done gs : List (List TraceInfo))
      → Spread realloc mem rand threads per_thread_lines s.tcs s.cur_thread done
      → Paced realloc mem rand threads per_thread_lines s
      → Owned s.heap ps gs
      → length (flat done) + length (flat gs) ≤ 2 ^ 30
      → (s' : Shares) × (hand_out_all realloc rand threads per_thread_lines s ps ≡ ok s')
        × Spread realloc mem rand threads per_thread_lines s'.tcs s'.cur_thread (done ++ gs)
  unfolding hand_out_all
  hand_out_all-Spread s [] done [] v paced o small = (
    s,
    refl,
    subst (Spread realloc mem rand threads per_thread_lines s.tcs s.cur_thread)
        (sym (append-nil done)) v,
  )
  hand_out_all-Spread s [] done (g ∷ gs) v paced o small = absurd o
  hand_out_all-Spread s (p ∷ ps) done [] v paced o small = absurd o
  hand_out_all-Spread s (p ∷ ps) done (g ∷ gs) v paced o small =
      let size = length-append g (flat gs) in
      let h = hand_out-Handed s p ps done g gs v paced o (omega (arith, size)) in
      let (s', e, v') = hand_out_all-Spread h.s' ps (done ++ g ∷ []) gs h.spread h.paced h.owned (
        omega (
          arith,
          size,
          ap length (flat-append done (g ∷ [])),
          length-append (flat done) (flat (g ∷ [])),
          ap length (append-nil g),
        )) in
      (
        s',
        >>=-ok _ h.ends ∙ e,
        subst (Spread realloc mem rand threads per_thread_lines s'.tcs s'.cur_thread)
            (append_assoc done (g ∷ []) gs) v',
      )

AllContain-length :
    (tcs : List TraceContainer) (gss : List (List (List TraceInfo)))
    → AllContain tcs gss
    → length tcs ≡ length gss
AllContain-length [] [] a = refl
AllContain-length [] (gs ∷ gss) a = absurd a
AllContain-length (tc ∷ tcs) [] a = absurd a
AllContain-length (tc ∷ tcs) (gs ∷ gss) a = ap suc (AllContain-length tcs gss a.1)

flat-replicate : (n : ℕ) → flat {A = List TraceInfo} (replicate n []) ≡ []
flat-replicate zero = refl
flat-replicate (suc n) = flat-replicate n

share_containers-starts :
    (realloc : ℕ → Bool) (rand : ℕ → ℕ) (threads valid_lines : ℕ) (heap : Heap) (ptcs : List ℕ)
    → 1 ≤ threads
    → share_containers realloc rand threads valid_lines heap ptcs
      ≡ hand_out_all realloc rand threads
          (valid_lines / threads)
          (record {
            tcs = create_tcs threads 0;
            heap = heap;
            cur_thread = 0;
            cur_thread_lines = 0;
            rands = 0;
          })
          ptcs
unfolding share_containers
share_containers-starts realloc rand threads valid_lines heap ptcs some_thread =
    let nonzero : (threads == 0) ≡ false = ground (arith, some_thread) in
    rw (share_containers, nonzero)

-- The distribution ends well, for any number of workers and whatever rand returns, if realloc always
-- finds memory, the pointers are distinct, each is to the container of its group and the traces are
-- at most 2 ^ 30. Each group then stands, whole and in the order of its traces, in the container of
-- one worker; the groups keep their order, within a worker and from one worker to the next, and none
-- is lost or handed out twice.
pub share_containers-AllContain :
    (realloc : ℕ → Bool) (mem : (bytes : ℕ) → realloc bytes ≡ true) (rand : ℕ → ℕ)
    (threads valid_lines : ℕ) (heap : Heap) (ptcs : List ℕ) (groups : List (List TraceInfo))
    → 1 ≤ threads
    → Owned heap ptcs groups
    → length (flat groups) ≤ 2 ^ 30
    → (s : Shares) × (shared : List (List (List TraceInfo))) × (share_containers realloc rand
          threads valid_lines heap ptcs
        ≡ ok s)
      × AllContain s.tcs shared
      × (length shared ≡ threads)
      × (flat shared ≡ groups)
share_containers-AllContain realloc mem rand threads valid_lines heap ptcs groups some_thread o
      small =
    let rest : ℕ = threads - 1 in
    let start : Shares = record {
      tcs = create_tcs threads 0;
      heap = heap;
      cur_thread = 0;
      cur_thread_lines = 0;
      rands = 0;
    } in
    let count : threads ≡ suc rest = omega (arith, some_thread) in
    let empty : Spread realloc mem rand threads (valid_lines / threads) (create_tcs threads 0) 0
        [] =
      record {
        before = [];
        now = [];
        later = rest;
        all =
            subst (λ n. AllContain (create_tcs threads 0) (replicate n [])) count
              (AllContain-create threads 0);
        at = refl;
        total = omega (arith, some_thread);
        groups = refl;
      } in
    let (s, e, v) =
      hand_out_all-Spread realloc mem rand threads (valid_lines / threads) start ptcs [] groups
        empty (inr (omega arith)) o (omega (arith, small)) in
    let shared : List (List (List TraceInfo)) = v.before ++ (v.now ∷ replicate v.later []) in
    (
      s,
      shared,
      share_containers-starts realloc rand threads valid_lines heap ptcs some_thread ∙ e,
      v.all,
      omega (
        arith,
        length-append v.before (v.now ∷ replicate v.later []),
        length-replicate {A = List (List TraceInfo)} v.later [],
        v.total,
      ),
      flat-append v.before (v.now ∷ replicate v.later [])
          ∙ ap (λ l. flat v.before ++ (v.now ++ l)) (flat-replicate v.later)
          ∙ ap (λ l. flat v.before ++ l) (append-nil v.now)
          ∙ v.groups,
    )
