-- ===== src/Makers/Names.antt =====
-- The files that create_files makes.
use gogeta_fs_ae.Common.{
  ℕ, zero, suc, ◌+◌, ◌^◌, ◌≤◌, ◌<◌, ◌≡◌, ◌≢◌, refl, ap, sym, subst, ◌∙◌, Bool, true, false, List,
  [], ◌∷◌, ◌++◌, append-nil, append_assoc, length, length-append, ltb, ok, All, Pairs, dec_lt,
  arith,
}
use gogeta_fs_ae.Makers.{Made, created, not_created, not_closed, create_from, create_files}

module _ (answers : ℕ → Made) where
  -- How the loop for the files from number `i` to before `last` ended, with the first `k` files: all
  -- calls succeeded, or the first one that failed was a creat or a close, of the file behind those that
  -- were made before it.
  pub data Ended (i last : ℕ) : (k : ℕ) → (all : Bool) → Type 0 where
    all_made :
        (k : ℕ)
        → i + k ≡ last
        → ((j : ℕ) → i ≤ j → j < last → answers j ≡ created)
        → Ended i last k true
    creat_failed :
        (k : ℕ)
        → i + k < last
        → ((j : ℕ) → i ≤ j → j < i + k → answers j ≡ created)
        → answers (i + k) ≡ not_created
        → Ended i last k false
    close_failed :
        (k : ℕ)
        → i + k < last
        → ((j : ℕ) → i ≤ j → j < i + k → answers j ≡ created)
        → answers (i + k) ≡ not_closed
        → Ended i last (suc k) false

  first-created :
      (i bound : ℕ)
      → answers i ≡ created
      → ((j : ℕ) → suc i ≤ j → j < bound → answers j ≡ created)
      → (j : ℕ) → i ≤ j
      → j < bound
      → answers j ≡ created
  first-created i bound e later j low high = elim (dec_lt i j) [
    | yes lt ↦ later j (omega (arith, lt)) high
    | no same ↦ ap answers (omega (arith, same, low)) ∙ e
  ]

  -- One more file before.
  Ended-created :
      (i last k : ℕ) (all : Bool)
      → answers i ≡ created
      → Ended (suc i) last k all
      → Ended i last (suc k) all
  Ended-created i last k true e (all_made _ size made) =
      all_made (suc k) (omega (arith, size)) (first-created i last e made)
  Ended-created i last k false e (creat_failed _ lt made at) =
      creat_failed (suc k) (omega (arith, lt))
        (λ j low high. first-created i (suc i + k) e made j low (omega (arith, high)))
        (ap answers (omega arith) ∙ at)
  Ended-created i last (suc k) false e (close_failed _ lt made at) =
      close_failed (suc k) (omega (arith, lt))
        (λ j low high. first-created i (suc i + k) e made j low (omega (arith, high)))
        (ap answers (omega arith) ∙ at)

module _ (sprintf : ℕ → List ℕ) (base : List ℕ) where
  -- The names of `n` files from the one of number `i`.
  abbrev pub names : (n i : ℕ) → List (List ℕ)
  names zero i = []
  names (suc n) i = (base ++ sprintf i) ∷ names n (suc i)

  append-cancel : (l a b : List ℕ) → l ++ a ≡ l ++ b → a ≡ b
  append-cancel [] a b e = e
  append-cancel (x ∷ l) a b e = append-cancel l a b (let same = e in cc same)

  module _ (injective : (i j : ℕ) → sprintf i ≡ sprintf j → i ≡ j) where
    names-later : (i n j : ℕ) → i < j → All (λ name. base ++ sprintf i ≢ name) (names n j)
    names-later i zero j lt = tt
    names-later i (suc n) j lt = (
      (λ e.
          let same = injective i j (append-cancel base (sprintf i) (sprintf j) e) in
          omega (arith, same, lt)),
      names-later i n (suc j) (omega (arith, lt)),
    )

    names-distinct : (n i : ℕ) → Pairs ◌≢◌ (names n i)
    names-distinct zero i = tt
    names-distinct (suc n) i = (names-later i n (suc i) (omega arith), names-distinct n (suc i))

  module _ (answers : ℕ → Made) (fits : (i : ℕ) → length (base ++ sprintf i) < 1000) where
    -- What the loop leaves: the first files, and how it ended.
    Leaves : (n i : ℕ) → (before : List (List ℕ)) → Type 0
    Leaves n i before =
        (k : ℕ) × (all : Bool) × (create_from sprintf answers base n i before
          ≡ ok (before ++ names k i, all))
        × Ended answers i (i + n) k all

    create_from-answered :
        (n i : ℕ) (before : List (List ℕ)) (a : Made)
        → answers i ≡ a
        → Leaves n (suc i) (before ++ (base ++ sprintf i) ∷ [])
        → Leaves (suc n) i before
    unfolding Leaves create_from
    create_from-answered n i before created e (k, all, done, ends) =
        let fit : ltb (length (base ++ sprintf i)) 1000 ≡ true = ground (arith, fits i) in
        (
          suc k,
          all,
          rw fit (
              rw e (
                done
                ∙ ap (λ l. ok (l, all))
                    (append_assoc before ((base ++ sprintf i) ∷ []) (names k (suc i))))),
          Ended-created answers i (i + suc n) k all e
              (subst (λ m. Ended answers (suc i) m k all) (omega arith) ends),
        )
    create_from-answered n i before not_created e rest =
        let fit : ltb (length (base ++ sprintf i)) 1000 ≡ true = ground (arith, fits i) in
        (
          0,
          false,
          rw fit (rw e (ap (λ l. ok (l, false)) (sym (append-nil before)))),
          creat_failed 0 (omega arith) (λ j low high. absurd (omega arith))
              (ap answers (omega arith) ∙ e),
        )
    create_from-answered n i before not_closed e rest =
        let fit : ltb (length (base ++ sprintf i)) 1000 ≡ true = ground (arith, fits i) in
        (
          1,
          false,
          rw fit (rw e),
          close_failed 0 (omega arith) (λ j low high. absurd (omega arith))
              (ap answers (omega arith) ∙ e),
        )

    create_from-Leaves : (n i : ℕ) (before : List (List ℕ)) → Leaves n i before
    unfolding Leaves create_from
    create_from-Leaves zero i before = (
      0,
      true,
      ap (λ l. ok (l, true)) (sym (append-nil before)),
      all_made 0 refl (λ j low high. absurd (omega arith)),
    )
    create_from-Leaves (suc n) i before =
        create_from-answered n i before (answers i) refl
          (create_from-Leaves n (suc i) (before ++ (base ++ sprintf i) ∷ []))

    -- With names that fit, a text of its own for every number, and a number of files that is an int and
    -- not negative: if all calls succeed, the program leaves the files of all numbers and says so; else
    -- it leaves those before the first call that failed, with its file if that call was the close, and
    -- says that a call failed. The files are in order, and no name occurs twice.
    pub create_files-names :
        (n : ℕ)
        → n < 2 ^ 31
        → ((i j : ℕ) → sprintf i ≡ sprintf j → i ≡ j)
        → (k : ℕ) × (all : Bool) × (create_files sprintf answers base n ≡ ok (names k 0, all))
          × Ended answers 0 n k all
          × Pairs ◌≢◌ (names k 0)
    unfolding create_files Leaves
    create_files-names n int_number injective =
        let (k, all, e, ends) = create_from-Leaves n 0 [] in
        let test : ltb n (2 ^ 31) ≡ true = ground (arith, int_number) in
        let short : ltb (length base) 1000 ≡ true =
          ground (arith, fits 0, length-append base (sprintf 0)) in
        (
          k,
          all,
          rw (short, test) e,
          subst (λ m. Ended answers 0 m k all) (omega arith) ends,
          names-distinct injective k 0,
        )
