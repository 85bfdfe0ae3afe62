-- ===== src/Assign/Shares/Guards.antt =====
-- The guards of the distribution keep what the workers hold.
use gogeta_fs_ae.Common.{
  flat, flat-append, ℕ, suc, ◌+◌, ◌-◌, ◌*◌, ◌/◌, ◌%◌, ◌^◌, ◌≡◌, ◌≢◌, ◌≤◌, ◌⊎◌, inl, inr, refl, ap,
  sym, subst, ◌∙◌, Bool, true, false, ◌&&◌, not, List, [], ◌∷◌, ◌++◌, append_assoc, append-nil, ltb,
  leb, ltb→lt, ◌==◌, length, length-append, replicate, ok, if◌then◌else◌, Bool-cases, arith,
  ℕ_discrete,
}
use gogeta_fs_ae.Trace.{TraceInfo}
use gogeta_fs_ae.Container.{TraceContainer}
use gogeta_fs_ae.Assign.Shares.{Shares, next_worker, draw, before_add, after_add}
use gogeta_fs_ae.Assign.Shares.Groups.{AllContain}

module _ (realloc : ℕ → Bool) (mem : (bytes : ℕ) → realloc bytes ≡ true) (rand : ℕ → ℕ)
    (threads per_thread_lines : ℕ) where
  -- The workers up to the current one hold the groups `done`, in their order; the later ones are empty.
  pub record Spread (tcs : List TraceContainer) (cur_thread : ℕ) (done : List (List TraceInfo))
      : Type 0 where
    pub before : List (List (List TraceInfo))
    pub now : List (List TraceInfo)
    pub later : ℕ
    pub all : AllContain tcs (before ++ (now ∷ replicate later []))
    pub at : cur_thread ≡ length before
    pub total : length before + 1 + later ≡ threads
    pub groups : flat before ++ now ≡ done

  -- Only the last worker may get more than its share of lines.
  abbrev pub Paced : Shares → Type 0
  Paced s = (suc s.cur_thread ≡ threads) ⊎ (s.cur_thread_lines ≤ per_thread_lines)

  -- What the guards keep of a state.
  pub record Kept (s s' : Shares) (done : List (List TraceInfo)) : Type 0 where
    pub spread : Spread s'.tcs s'.cur_thread done
    pub paced : Paced s'
    pub heap : s'.heap ≡ s.heap

  Spread-next :
      (tcs : List TraceContainer) (cur_thread : ℕ) (done : List (List TraceInfo))
      → Spread tcs cur_thread done
      → suc cur_thread ≢ threads
      → Spread tcs (suc cur_thread) done
  Spread-next tcs cur_thread done v more =
      let rest : ℕ = v.later - 1 in
      let some_later : v.later ≡ suc rest = omega (arith, v.at, v.total, more) in
      let size = length-append v.before (v.now ∷ []) in
      record {
        before = v.before ++ v.now ∷ [];
        now = [];
        later = rest;
        all =
            subst (AllContain tcs)
              (ap (λ k. v.before ++ (v.now ∷ replicate k [])) some_later
                ∙ sym (append_assoc v.before (v.now ∷ []) ([] ∷ replicate rest [])))
              v.all;
        at = omega (arith, size, v.at);
        total = omega (arith, size, v.total, some_later);
        groups =
            append-nil (flat (v.before ++ v.now ∷ []))
            ∙ flat-append v.before (v.now ∷ [])
            ∙ ap (λ l. flat v.before ++ l) (append-nil v.now)
            ∙ v.groups;
      }

  -- The draw moves to the next worker or does not.
  draw-Kept :
      (s : Shares) (size : ℕ) (done : List (List TraceInfo))
      → Spread s.tcs s.cur_thread done
      → suc s.cur_thread ≢ threads
      → s.cur_thread_lines ≤ per_thread_lines
      → Kept s (draw realloc rand threads per_thread_lines s size) done
  unfolding draw
  draw-Kept s size done v more paced =
      let probability : ℕ =
        (per_thread_lines + 2 ^ 64 - s.cur_thread_lines) % 2 ^ 64 * 100 % 2 ^ 64 / size % 2 ^ 32 in
      pick (ltb probability (2 ^ 31) && ltb (rand s.rands % 100) probability)
    where
      drawn : Shares
      drawn = record s { rands = suc s.rands }

      pick :
          (b : Bool)
          → Kept s
              (if b then next_worker realloc rand threads per_thread_lines drawn else drawn)
              done
      pick true = record {
        spread = Spread-next s.tcs s.cur_thread done v more;
        paced = inr (omega arith);
        heap = refl;
      }
      pick false = record { spread = v; paced = inr paced; heap = refl }

  abbrev over_share : Shares → ℕ → Bool
  over_share s size =
      not (s.cur_thread == threads - 1)
      && ltb per_thread_lines ((size + s.cur_thread_lines) % 2 ^ 64)

  before_add-skips :
      (s : Shares) (size : ℕ)
      → over_share s size ≡ false
      → before_add realloc rand threads per_thread_lines s size ≡ ok s
  unfolding before_add
  before_add-skips s size h = rw (before_add, h)

  before_add-draws :
      (s : Shares) (size : ℕ)
      → over_share s size ≡ true
      → size ≢ 0
      → before_add realloc rand threads per_thread_lines s size
        ≡ ok (draw realloc rand threads per_thread_lines s size)
  unfolding before_add
  before_add-draws s size h some_lines =
      let nonzero : (size == 0) ≡ false = ground (arith, some_lines) in rw (before_add, h, nonzero)

  behind :
      (s : Shares) → Paced s → suc s.cur_thread ≢ threads → s.cur_thread_lines ≤ per_thread_lines
  behind s (inl last) more = absurd (more last)
  behind s (inr low) more = low

  abbrev share_full : Shares → Bool
  share_full s = not (s.cur_thread == threads - 1) && leb per_thread_lines s.cur_thread_lines

  after_add-stays :
      (s : Shares) → share_full s ≡ false → after_add realloc rand threads per_thread_lines s ≡ s
  unfolding after_add
  after_add-stays s h = rw (after_add, h)

  after_add-moves :
      (s : Shares)
      → share_full s ≡ true
      → after_add realloc rand threads per_thread_lines s
        ≡ next_worker realloc rand threads per_thread_lines s
  unfolding after_add
  after_add-moves s h = rw (after_add, h)

  pub before_add-Kept :
      (s : Shares) (size : ℕ) (done : List (List TraceInfo))
      → Spread s.tcs s.cur_thread done
      → Paced s
      → (s' : Shares) × (before_add realloc rand threads per_thread_lines s size ≡ ok s')
        × Kept s s' done
  before_add-Kept s size done v paced = elim (ℕ_discrete (suc s.cur_thread) threads) [
    | yes last ↦
        let same : (s.cur_thread == threads - 1) ≡ true = ground (arith, last) in
        (
          s,
          before_add-skips s size (ground arith),
          record { spread = v; paced = paced; heap = refl },
        )
    | no more ↦
        let low : s.cur_thread_lines ≤ per_thread_lines = behind s paced more in
        elim (Bool-cases (ltb per_thread_lines ((size + s.cur_thread_lines) % 2 ^ 64))) [
          | inl over ↦
              let lt = ltb→lt per_thread_lines ((size + s.cur_thread_lines) % 2 ^ 64) over in
              (
                draw realloc rand threads per_thread_lines s size,
                before_add-draws s size (ground (arith, more)) (λ e. omega (arith, lt, e, low)),
                draw-Kept s size done v more low,
              )
          | inr under ↦ (
            s,
            before_add-skips s size (ground arith),
            record { spread = v; paced = paced; heap = refl },
          )
        ]
  ]

  pub after_add-Kept :
      (s : Shares) (done : List (List TraceInfo))
      → Spread s.tcs s.cur_thread done
      → Kept s (after_add realloc rand threads per_thread_lines s) done
  after_add-Kept s done v = elim (ℕ_discrete (suc s.cur_thread) threads) [
    | yes last ↦
        subst (λ t. Kept s t done) (sym (after_add-stays s (ground (arith, last))))
          (record { spread = v; paced = inl last; heap = refl })
    | no more ↦ elim (Bool-cases (leb per_thread_lines s.cur_thread_lines)) [
      | inl full ↦
          subst (λ t. Kept s t done) (sym (after_add-moves s (ground (arith, more))))
            (record {
              spread = Spread-next s.tcs s.cur_thread done v more;
              paced = inr (omega arith);
              heap = refl;
            })
      | inr room ↦
          subst (λ t. Kept s t done) (sym (after_add-stays s (ground arith)))
            (record { spread = v; paced = inr (ground arith); heap = refl })
    ]
  ]
