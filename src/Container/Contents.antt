-- ===== src/Container/Contents.antt =====
-- A container refines the list of its traces: adding appends, whatever the capacity was.
use gogeta_fs_ae.Common.{
  ℕ, suc, ◌+◌, ◌-◌, ◌*◌, ◌^◌, ◌≤◌, ◌<◌, ◌≡◌, ◌≢◌, refl, ap, ◌∙◌, Bool, true, false, Option, none,
  some, List, [], ◌∷◌, ◌++◌, map, ◌==◌, length, set, replicate, length-replicate, length-append,
  length-map, length-set, ap₂, ℕ_discrete, ==_iff, Bool-cases, inl, inr, ◌⊎◌, >>=-ok, append_assoc,
  append-nil, ok, err, exited, ◌>>=◌, read, arith,
}
use gogeta_fs_ae.Trace.{TraceInfo}
use gogeta_fs_ae.Slice.{Holds, Holds-prefix}
use gogeta_fs_ae.Container.{
  TraceContainer, trace_container_create, append_info, grow, trace_container_add, add_from,
  trace_container_add_collection,
}

-- The cells of `l`, then cells that hold no trace yet.
pub record Contains (tc : TraceContainer) (l : List TraceInfo) : Type 0 where
  pub spare : List (Option TraceInfo)
  pub cells : tc.infos_map ≡ map some l ++ spare
  pub counted : tc.size ≡ length l
  pub allocated : length tc.infos_map ≡ tc.capacity
  pub nonempty : 1 ≤ tc.capacity

-- A new container has no traces.
pub create-Contains :
    (capacity meta : ℕ) → 1 ≤ capacity → Contains (trace_container_create capacity meta) []
unfolding trace_container_create
create-Contains capacity meta h = record {
  spare = replicate capacity none;
  cells = refl;
  counted = refl;
  allocated = length-replicate capacity none;
  nonempty = h;
}

-- Writing the first spare cell makes it the last trace.
set-spare :
    (l : List TraceInfo) (spare : List (Option TraceInfo)) (info : TraceInfo)
    → 1 ≤ length spare
    → (rest : List (Option TraceInfo)) × (set (map some l ++ spare) (length l) (some info)
        ≡ map some (l ++ info ∷ []) ++ rest)
set-spare [] [] info h = absurd (omega arith)
set-spare [] (s ∷ rest) info h = (rest, refl)
set-spare (x ∷ l) spare info h =
    let (rest, e) = set-spare l spare info h in (rest, ap (◌∷◌ (some x)) e)

length-cells :
    (l : List TraceInfo) (spare : List (Option TraceInfo))
    → length (map {B = Option TraceInfo} some l ++ spare) ≡ length l + length spare
length-cells l spare = omega (arith, length-append (map some l) spare, length-map l some)

append_info-Contains :
    (tc : TraceContainer) (info : TraceInfo) (l : List TraceInfo)
    → Contains tc l
    → tc.size < tc.capacity
    → (tc' : TraceContainer) × (append_info tc info ≡ ok tc') × Contains tc' (l ++ info ∷ [])
unfolding append_info
append_info-Contains tc info l c h =
    let room = ap length c.cells ∙ length-cells l c.spare in
    let (rest, e) = set-spare l c.spare info (omega (arith, room, c.counted, c.allocated)) in
    (
      record tc { infos_map = set tc.infos_map tc.size (some info); size = suc tc.size },
      ground (arith, c.allocated),
      record {
        spare = rest;
        cells = ap₂ (λ m n. set m n (some info)) c.cells c.counted ∙ e;
        counted = omega (arith, c.counted, length-append l (info ∷ []));
        allocated = length-set tc.infos_map tc.size (some info) ∙ c.allocated;
        nonempty = c.nonempty;
      },
    )

module _ (realloc : ℕ → Bool) where
  grow-Contains :
      (tc : TraceContainer) (l : List TraceInfo)
      → Contains tc l
      → tc.capacity < 2 ^ 30
      → realloc (16 * tc.capacity) ≡ true
      → (tc' : TraceContainer) × (grow realloc tc ≡ ok tc')
        × Contains tc' l
        × (tc'.capacity ≡ tc.capacity * 2)
        × (tc'.size ≡ tc.size)
  unfolding grow
  grow-Contains tc l c small mem =
      let more : List (Option TraceInfo) = replicate (tc.capacity * 2 - tc.capacity) none in
      let bytes : 8 * (tc.capacity * 2) ≡ 16 * tc.capacity = omega arith in
      (
        record tc { infos_map = tc.infos_map ++ more; capacity = tc.capacity * 2 },
        ground (arith, ap realloc bytes),
        record {
          spare = c.spare ++ more;
          cells = ap (λ m. m ++ more) c.cells ∙ append_assoc (map some l) c.spare more;
          counted = c.counted;
          allocated = omega (
            arith,
            length-append tc.infos_map more,
            length-replicate {A = Option TraceInfo} (tc.capacity * 2 - tc.capacity) none,
            c.allocated,
          );
          nonempty = omega (arith, c.nonempty);
        },
        refl,
        refl,
      )

  grow-refused :
      (tc : TraceContainer)
      → tc.capacity < 2 ^ 30
      → realloc (16 * tc.capacity) ≡ false
      → grow realloc tc ≡ err (exited 1)
  unfolding grow
  grow-refused tc small none_left =
      let bytes : 8 * (tc.capacity * 2) ≡ 16 * tc.capacity = omega arith in
      ground (arith, ap realloc bytes)

  add-full :
      (tc : TraceContainer) (info : TraceInfo)
      → tc.size ≡ tc.capacity
      → trace_container_add realloc tc info ≡ (grow realloc tc >>= λ t. append_info t info)
  unfolding trace_container_add
  add-full tc info full = rw ((==_iff tc.size tc.capacity).1 full)

  add-space :
      (tc : TraceContainer) (info : TraceInfo)
      → tc.size ≢ tc.capacity
      → trace_container_add realloc tc info ≡ append_info tc info
  unfolding trace_container_add
  add-space tc info space = elim (Bool-cases (tc.size == tc.capacity)) [
    | inl full ↦ absurd (space ((==_iff tc.size tc.capacity).0 full))
    | inr other ↦ rw other
  ]

  -- What an addition of `info` to the traces `l` comes to.
  abbrev pub Added : TraceContainer → TraceInfo → List TraceInfo → Type 0
  Added tc info l =
      (tc' : TraceContainer) × (trace_container_add realloc tc info ≡ ok tc')
      × Contains tc' (l ++ info ∷ [])

  -- Adding a trace to a container of fewer than 2 ^ 30 appends it to the container's traces where the
  -- array has room, and where it is full and realloc doubles it; the program exits with 1 where the
  -- array is full and realloc refuses to double it, and only there.
  pub add-Contains :
      (tc : TraceContainer) (info : TraceInfo) (l : List TraceInfo)
      → Contains tc l
      → length l < 2 ^ 30
      → (((tc.size ≢ tc.capacity) ⊎ (realloc (16 * tc.capacity) ≡ true)) × Added tc info l)
        ⊎ ((tc.size ≡ tc.capacity)
            × (realloc (16 * tc.capacity) ≡ false)
            × (trace_container_add realloc tc info ≡ err (exited 1)))
  add-Contains tc info l c small = elim (ℕ_discrete tc.size tc.capacity) [
    | yes full ↦
        let cap_small : tc.capacity < 2 ^ 30 = omega (arith, c.counted, full) in
        elim (Bool-cases (realloc (16 * tc.capacity))) [
          | inl mem ↦
              let (tc', e, c', doubled, kept) = grow-Contains tc l c cap_small mem in
              let (tc'', e', c'') =
                append_info-Contains tc' info l c'
                  (omega (arith, c.nonempty, doubled, kept, full)) in
              inl (
                inr mem,
                (tc'', add-full tc info full ∙ >>=-ok (λ t. append_info t info) e ∙ e', c''),
              )
          | inr refused ↦
              inr (full, refused, add-full tc info full ∙ rw (grow-refused tc cap_small refused))
        ]
    | no space ↦
        let within : tc.size ≤ tc.capacity =
          omega (arith, ap length c.cells, length-cells l c.spare, c.counted, c.allocated) in
        let (tc', e, c') = append_info-Contains tc info l c (omega (arith, within, space)) in
        inl (inl space, (tc', add-space tc info space ∙ e, c'))
  ]

  module _ (mem : (bytes : ℕ) → realloc bytes ≡ true) where
    pub add-Added :
        (tc : TraceContainer) (info : TraceInfo) (l : List TraceInfo)
        → Contains tc l
        → length l < 2 ^ 30
        → Added tc info l
    add-Added tc info l c small = elim (add-Contains tc info l c small) [
      | inl a ↦ a.1
      | inr refused ↦ absurd (ground (arith, mem (16 * tc.capacity)))
    ]

    add_from-Contains :
        (l2 l : List TraceInfo) (i : ℕ) (tc tc2 : TraceContainer)
        → Holds tc2.infos_map i (map some l2)
        → Contains tc l
        → length l + length l2 ≤ 2 ^ 30
        → (tc' : TraceContainer) × (add_from realloc (length l2) i tc tc2 ≡ ok tc')
          × Contains tc' (l ++ l2)
    unfolding add_from
    add_from-Contains [] l i tc tc2 h c small = (tc, refl, rw (append-nil l) c)
    add_from-Contains (x ∷ l2) l i tc tc2 h c small =
        let (tc', e, c') = add-Added tc x l c (omega arith) in
        let (tc'', e', c'') =
          add_from-Contains l2 (l ++ x ∷ []) (suc i) tc' tc2 h.1 c'
            (omega (arith, length-append l (x ∷ []))) in
        (
          tc'',
          >>=-ok _ (ap (λ c. read c >>= read) h.0) ∙ >>=-ok _ e ∙ e',
          rw (append_assoc l (x ∷ []) l2) at c'',
        )

    -- Adding a whole container appends its traces, in their order.
    pub add_collection-Contains :
        (tc tc2 : TraceContainer) (l l2 : List TraceInfo)
        → Contains tc l
        → Contains tc2 l2
        → length l + length l2 ≤ 2 ^ 30
        → (tc' : TraceContainer) × (trace_container_add_collection realloc tc tc2 ≡ ok tc')
          × Contains tc' (l ++ l2)
    unfolding trace_container_add_collection
    add_collection-Contains tc tc2 l l2 c c2 small =
        let slice : Holds tc2.infos_map 0 (map some l2) =
          rw c2.cells (Holds-prefix (map some l2) c2.spare) in
        let (tc', e, c') = add_from-Contains l2 l 0 tc tc2 slice c small in
        (tc', ap (λ n. add_from realloc n 0 tc tc2) c2.counted ∙ e, c')
