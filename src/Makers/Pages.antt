-- ===== src/Makers/Pages.antt =====
-- The file that write_1G leaves.
use gogeta_fs_ae.Common.{
  ℕ, zero, suc, ◌+◌, ◌*◌, ◌/◌, ◌%◌, ◌^◌, ◌≤◌, ◌<◌, ◌≡◌, ap, ap₂, sym, ◌∙◌, true, false, List, [],
  ◌∷◌, ◌++◌, append_assoc, append-nil, min, ltb, ◌==◌, ok, All, arith,
}
use gogeta_fs_ae.File.{Answer, count}
use gogeta_fs_ae.Makers.{
  total_size, step_size, page_bytes, first_value, fill_buffer, write_steps, write_1g,
}

-- `n` numbers from `v`.
abbrev pub numbers_from : (v n : ℕ) → List ℕ
numbers_from v zero = []
numbers_from v (suc n) = v ∷ numbers_from (suc v) n

numbers_from-append :
    (v n m : ℕ) → numbers_from v n ++ numbers_from (v + n) m ≡ numbers_from v (n + m)
numbers_from-append v zero m = ap₂ numbers_from (omega arith) (omega arith)
numbers_from-append v (suc n) m =
    let at : v + suc n ≡ suc v + n = omega arith in
    let all : suc n + m ≡ suc (n + m) = omega arith in
    ap (λ k. v ∷ (numbers_from (suc v) n ++ numbers_from k m)) at
    ∙ ap (◌∷◌ v) (numbers_from-append (suc v) n m)
    ∙ ap (numbers_from v) (sym all)

numbers_from-All :
    (P : ℕ → Type 0) (v n : ℕ) → ((m : ℕ) → v ≤ m → m < v + n → P m) → All P (numbers_from v n)
numbers_from-All P v zero h = tt
numbers_from-All P v (suc n) h = (
  h v (omega arith) (omega arith),
  numbers_from-All P (suc v) n (λ m low high. h m (omega (arith, low)) (omega (arith, high))),
)

fill_buffer-numbers : (n v : ℕ) → v + n < 2 ^ 64 → fill_buffer n v ≡ (numbers_from v n, v + n)
unfolding fill_buffer
fill_buffer-numbers zero v small = let none : v ≡ v + 0 = omega arith in ap (λ k. ([], k)) none
fill_buffer-numbers (suc n) v small =
    let next : (v + 1) % 2 ^ 64 ≡ suc v = omega (arith, small) in
    let at : suc v + n ≡ v + suc n = omega arith in
    ap (λ k. (v ∷ (fill_buffer n k).0, (fill_buffer n k).1)) next
    ∙ ap (λ (b : List ℕ × ℕ). (v ∷ b.0, b.1)) (fill_buffer-numbers n (suc v) (omega (arith, small)))
    ∙ ap (λ k. (v ∷ numbers_from (suc v) n, k)) at

module _ (answers : ℕ → Answer)
    (whole : (i : ℕ) → (k : ℕ) × (answers i ≡ count k) × (step_size ≤ k)) where
  write_steps-numbers :
      (n i v : ℕ) (file : List ℕ)
      → v + n * 512 < 2 ^ 64
      → write_steps answers n i v file ≡ ok (file ++ numbers_from v (n * 512))
  unfolding write_steps
  write_steps-numbers zero i v file small = ap (λ l. ok l) (sym (append-nil file))
  write_steps-numbers (suc n) i v file small =
      let (k, e, enough) = whole i in
      let test : (min k step_size == step_size) ≡ true = ground (arith, enough) in
      let buffer = fill_buffer-numbers 512 v (omega (arith, small)) in
      let more : 512 + n * 512 ≡ suc n * 512 = omega arith in
      rw (write_steps, e)
        (rw test (
          ap (λ (b : List ℕ × ℕ). write_steps answers n (suc i) b.1 (file ++ b.0)) buffer
          ∙ write_steps-numbers n (suc i) (v + 512) (file ++ numbers_from v 512)
              (omega (arith, small))
          ∙ ap (λ l. ok l)
              (append_assoc file (numbers_from v 512) (numbers_from (v + 512) (n * 512))
                ∙ ap (λ l. file ++ l)
                    (numbers_from-append v 512 (n * 512) ∙ ap (numbers_from v) more))))

  -- For a seed below 8192, a file that is not there yet and can be made, and writes that transfer their
  -- whole buffer: the file has the pages of the 262144 numbers from 262144 times the seed, in order, so
  -- two files of different seeds have no page in common.
  pub write_1g-numbers :
      (seed : ℕ)
      → seed < 8192
      → (write_1g answers false true seed ≡ ok (numbers_from (seed * 262144) 262144))
        × All (λ page. page / 262144 ≡ seed) (numbers_from (seed * 262144) 262144)
  unfolding write_1g first_value
  write_1g-numbers seed small =
      let int_seed : ltb seed (2 ^ 31) ≡ true = ground (arith, small) in
      let room : ltb (seed * (total_size / page_bytes)) (2 ^ 31) ≡ true = ground (arith, small) in
      (
        rw (int_seed, room) (write_steps-numbers 512 0 (seed * 262144) [] (omega (arith, small))),
        numbers_from-All (λ page. page / 262144 ≡ seed) (seed * 262144) 262144
            (λ m low high. omega (arith, low, high)),
      )
