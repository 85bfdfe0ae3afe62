-- ===== src/Ageing/Punched.antt =====
-- The punching ends with exactly the holes that were asked for.
use native.Mathlib.Nat.{mod-lt}
use gogeta_fs_ae.Common.{
  ℕ, zero, suc, ◌+◌, ◌*◌, ◌%◌, ◌≤◌, ◌<◌, ◌≡◌, refl, ap, sym, subst, ◌∙◌, Bool, true, false, some,
  List, [], ◌∷◌, ◌==◌, length, get_elem?, get_elem?-lt, lt_of_get_elem?, set, length-set, replicate,
  length-replicate, Result, ok, if◌then◌else◌, arith,
}
use gogeta_fs_ae.Ageing.{punch_hole, punch, punch_holes}

-- The pages that are recorded.
abbrev pub punched_count : List Bool → ℕ
punched_count [] = 0
punched_count (b ∷ records) = (if b then 1 else 0) + punched_count records

-- A file with a hole where a page is recorded.
abbrev pub with_holes : List Bool → List ℕ → List ℕ
with_holes [] file = file
with_holes (b ∷ records) [] = []
with_holes (b ∷ records) (v ∷ file) = (if b then 0 else v) ∷ with_holes records file

pub punched_count-set :
    (records : List Bool) (i : ℕ)
    → get_elem? records i ≡ some false
    → punched_count (set records i true) ≡ suc (punched_count records)
punched_count-set [] i e = grind (arith, e)
punched_count-set (b ∷ records) zero e = ground (arith, e)
punched_count-set (b ∷ records) (suc i) e = omega (arith, punched_count-set records i e)

with_holes-set :
    (records : List Bool) (file : List ℕ) (i : ℕ)
    → i < length records
    → with_holes (set records i true) file ≡ set (with_holes records file) i 0
with_holes-set [] file i lt = absurd (omega (arith, lt))
with_holes-set (b ∷ records) [] zero lt = refl
with_holes-set (b ∷ records) [] (suc i) lt = refl
with_holes-set (b ∷ records) (v ∷ file) zero lt = refl
with_holes-set (b ∷ records) (v ∷ file) (suc i) lt =
    ap (◌∷◌ (if b then 0 else v)) (with_holes-set records file i (omega (arith, lt)))

pub punched_count-le : (records : List Bool) → punched_count records ≤ length records
punched_count-le [] = omega arith
punched_count-le (b ∷ records) = ground (arith, punched_count-le records)

-- Below the whole, a page is not recorded.
some_page :
    (records : List Bool)
    → punched_count records < length records
    → (i : ℕ) × (get_elem? records i ≡ some false)
some_page [] few = absurd (omega (arith, few))
some_page (false ∷ records) few = (0, refl)
some_page (true ∷ records) few = let (i, e) = some_page records (omega (arith, few)) in (suc i, e)

punched_count-none : (n : ℕ) → punched_count (replicate n false) ≡ 0
punched_count-none zero = refl
punched_count-none (suc n) = omega (arith, punched_count-none n)

with_holes-none : (n : ℕ) (file : List ℕ) → with_holes (replicate n false) file ≡ file
with_holes-none zero file = refl
with_holes-none (suc n) [] = refl
with_holes-none (suc n) (v ∷ file) = ap (◌∷◌ v) (with_holes-none n file)

module _ (rand : ℕ → ℕ) (fallocate_works : ℕ → Bool) (total_4K_blks : ℕ) where
  -- Each number below the total is drawn among any `gap` draws.
  abbrev pub Fair : ℕ → Type 0
  Fair gap =
      (calls pos : ℕ)
      → pos < total_4K_blks
      → (k : ℕ) × (k < gap) × (rand (calls + k) % total_4K_blks ≡ pos)

  pub punch-recorded :
      (f calls h : ℕ) (records : List Bool) (file : List ℕ)
      → (total_4K_blks == 0) ≡ false
      → get_elem? records (rand calls % total_4K_blks) ≡ some true
      → punch rand fallocate_works total_4K_blks (suc f) calls records (suc h) file
        ≡ punch rand fallocate_works total_4K_blks f (suc calls) records (suc h) file
  unfolding punch
  punch-recorded f calls h records file some_blks e = rw (punch, some_blks, e)

  pub punch-new :
      (f calls h : ℕ) (records : List Bool) (file : List ℕ)
      → (total_4K_blks == 0) ≡ false
      → get_elem? records (rand calls % total_4K_blks) ≡ some false
      → punch rand fallocate_works total_4K_blks (suc f) calls records (suc h) file
        ≡ punch rand fallocate_works total_4K_blks f
            (suc calls)
            (set records (rand calls % total_4K_blks) true)
            h
            (punch_hole rand fallocate_works total_4K_blks (rand calls % total_4K_blks) file)
  unfolding punch
  punch-new f calls h records file some_blks e = rw (punch, some_blks, e)

  module _ (works : (pos : ℕ) → fallocate_works pos ≡ true) (old : List ℕ) where
    abbrev Punches : Result (List ℕ × List Bool) → (n : ℕ) → Type 0
    Punches r n =
        (file : List ℕ) × (records : List Bool) × (r ≡ ok (file, records))
        × (length records ≡ total_4K_blks)
        × (punched_count records ≡ n)
        × (file ≡ with_holes records old)

    punch_hole-set :
        (pos : ℕ) (file : List ℕ)
        → punch_hole rand fallocate_works total_4K_blks pos file ≡ set file pos 0
    unfolding punch_hole
    punch_hole-set pos file = ap (λ b. if b then set file pos 0 else file) (works pos)

    punch-done :
        (f calls : ℕ) (records : List Bool) (file : List ℕ)
        → punch rand fallocate_works total_4K_blks f calls records zero file ≡ ok (file, records)
    unfolding punch
    punch-done zero calls records file = refl
    punch-done (suc f) calls records file = refl

    -- What is known between two rounds.
    abbrev Between : (records : List Bool) (file : List ℕ) (h : ℕ) → Type 0
    Between records file h =
        (length records ≡ total_4K_blks)
        × (file ≡ with_holes records old)
        × (punched_count records + h ≤ total_4K_blks)

    Between-new :
        (records : List Bool) (file : List ℕ) (h pos : ℕ)
        → Between records file (suc h)
        → get_elem? records pos ≡ some false
        → Between (set records pos true) (punch_hole rand fallocate_works total_4K_blks pos file) h
    Between-new records file h pos (size, same, few) e = (
      length-set records pos true ∙ size,
      punch_hole-set pos file
          ∙ ap (λ l. set l pos 0) same
          ∙ sym (with_holes-set records old pos (lt_of_get_elem? records pos e)),
      omega (arith, few, punched_count-set records pos e),
    )

    module _ (gap : ℕ) (fair : Fair gap) (some_blks : 1 ≤ total_4K_blks) where
      nonzero : (total_4K_blks == 0) ≡ false
      nonzero = ground (arith, some_blks)

      Ends : ℕ → Type 0
      Ends h =
          (n calls f : ℕ) (records : List Bool) (file : List ℕ)
          → n ≡ punched_count records + h
          → Between records file h
          → h * gap ≤ f
          → Punches (punch rand fallocate_works total_4K_blks f calls records h file) n

      module _ (h : ℕ) (ends : Ends h) (n : ℕ) where
        -- One draw: `x` is the record that it finds, and a new page is drawn `k` draws later.
        punch-draw :
            (x : Bool) (k calls f : ℕ) (records : List Bool) (file : List ℕ)
            → n ≡ punched_count records + suc h
            → Between records file (suc h)
            → get_elem? records (rand calls % total_4K_blks) ≡ some x
            → get_elem? records (rand (calls + k) % total_4K_blks) ≡ some false
            → k + suc (h * gap) ≤ suc f
            → ((j : ℕ)
                → get_elem? records (rand (suc calls + j) % total_4K_blks) ≡ some false
                → j + suc (h * gap) ≤ f
                → Punches
                    (punch rand fallocate_works total_4K_blks f (suc calls) records (suc h) file)
                    n)
            → Punches
                (punch rand fallocate_works total_4K_blks (suc f) calls records (suc h) file)
                n
        unfolding Ends
        punch-draw true zero calls f records file count b at e enough next =
            let same : calls + 0 ≡ calls = omega arith in
            let both = ap (λ c. get_elem? records (rand c % total_4K_blks)) same in
            absurd (grind (arith, sym at ∙ sym both ∙ e))
        punch-draw true (suc k) calls f records file count b at e enough next =
            let later : calls + suc k ≡ suc calls + k = omega arith in
            subst (λ r. Punches r n) (sym (punch-recorded f calls h records file nonzero at))
              (next k (sym (ap (λ c. get_elem? records (rand c % total_4K_blks)) later) ∙ e)
                (omega (arith, enough)))
        punch-draw false k calls f records file count b at e enough next =
            let pos : ℕ = rand calls % total_4K_blks in
            subst (λ r. Punches r n) (sym (punch-new f calls h records file nonzero at))
              (ends n (suc calls) f (set records pos true)
                (punch_hole rand fallocate_works total_4K_blks pos file)
                (omega (arith, count, punched_count-set records pos at))
                (Between-new records file h pos b at) (omega (arith, enough)))

        punch-until :
            (k calls f : ℕ) (records : List Bool) (file : List ℕ)
            → n ≡ punched_count records + suc h
            → Between records file (suc h)
            → get_elem? records (rand (calls + k) % total_4K_blks) ≡ some false
            → k + suc (h * gap) ≤ f
            → Punches (punch rand fallocate_works total_4K_blks f calls records (suc h) file) n
        punch-until k calls zero records file count b e enough = absurd (omega (arith, enough))
        punch-until k calls (suc f) records file count b e enough =
            let pos : ℕ = rand calls % total_4K_blks in
            let (x, at) =
              get_elem?-lt records pos (omega (arith, b.0, mod-lt (rand calls) some_blks)) in
            punch-draw x k calls f records file count b at e enough
              (λ j hit more. punch-until j (suc calls) f records file count b hit more)

      punch-Ends : (h : ℕ) → Ends h
      unfolding Ends
      punch-Ends zero n calls f records file count b enough =
          (file, records, punch-done f calls records file, b.0, omega (arith, count), b.1)
      punch-Ends (suc h) n calls f records file count b enough =
          let (pos, new) = some_page records (omega (arith, b.0, b.2)) in
          let (k, near, hit) =
            fair calls pos (omega (arith, b.0, lt_of_get_elem? records pos new)) in
          let more : suc h * gap ≡ gap + h * gap = grind arith in
          punch-until h (punch-Ends h) n k calls f records file count b
            (ap (get_elem? records) hit ∙ new) (omega (arith, near, enough, more))

      -- If fallocate works and each page is drawn among any `gap` draws, not more holes than pages take
      -- at most `gap` draws each: the punching ends, exactly that many pages are recorded, each once,
      -- and the file has holes where they are recorded and is the same elsewhere.
      pub punch_holes-ends :
          (fuel hole_num : ℕ)
          → hole_num ≤ total_4K_blks
          → hole_num * gap ≤ fuel
          → (file : List ℕ) × (records : List Bool) × (punch_holes rand fallocate_works
                total_4K_blks fuel hole_num old
              ≡ ok (file, records))
            × (length records ≡ total_4K_blks)
            × (punched_count records ≡ hole_num)
            × (file ≡ with_holes records old)
      unfolding punch_holes Ends
      punch_holes-ends fuel hole_num few enough =
          let blank = replicate total_4K_blks false in
          let none_yet = punched_count-none total_4K_blks in
          punch-Ends hole_num hole_num 0 fuel blank old (omega (arith, none_yet))
            (
              length-replicate total_4K_blks false,
              sym (with_holes-none total_4K_blks old),
              omega (arith, none_yet, few),
            )
            enough
