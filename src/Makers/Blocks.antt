-- ===== src/Makers/Blocks.antt =====
-- The blocks that exhaust_nvmm counts.
use gogeta_fs_ae.Common.{
  ℕ, zero, suc, ◌+◌, ◌≤◌, ◌<◌, ◌≡◌, ◌⊎◌, inl, inr, ap, sym, subst, ◌∙◌, true, false, min, ◌==◌, ok,
  arith,
}
use gogeta_fs_ae.File.{Answer, count, failed}
use gogeta_fs_ae.Makers.{page_bytes, exhaust_from, exhaust_nvmm}

-- The write of number `i` takes a whole block, or does not.
abbrev pub TakesAll : (ℕ → Answer) → ℕ → Type 0
TakesAll answers i = (k : ℕ) × (answers i ≡ count k) × (page_bytes ≤ k)

abbrev pub Stops : (ℕ → Answer) → ℕ → Type 0
Stops answers i = (answers i ≡ failed) ⊎ ((k : ℕ) × (answers i ≡ count k) × (k < page_bytes))

module _ (answers : ℕ → Answer) where
  exhaust_from-stop : (f i : ℕ) → Stops answers i → exhaust_from answers (suc f) i ≡ ok i
  unfolding exhaust_from
  exhaust_from-stop f i (inl e) = rw (exhaust_from, e)
  exhaust_from-stop f i (inr (k, e, short)) =
      let test : (min k page_bytes == page_bytes) ≡ false = ground (arith, short) in
      rw (exhaust_from, e) (rw test)

  exhaust_from-counts :
      (room i : ℕ)
      → ((j : ℕ) → i ≤ j → j < i + room → TakesAll answers j)
      → Stops answers (i + room)
      → exhaust_from answers (suc room) i ≡ ok (i + room)
  unfolding exhaust_from
  exhaust_from-counts zero i all stop =
      let at : i + 0 ≡ i = omega arith in
      exhaust_from-stop 0 i (subst (Stops answers) at stop) ∙ ap (λ k. ok k) (sym at)
  exhaust_from-counts (suc room) i all stop =
      let (k, e, enough) = all i (omega arith) (omega arith) in
      let test : (min k page_bytes == page_bytes) ≡ true = ground (arith, enough) in
      let at : i + suc room ≡ suc i + room = omega arith in
      rw (exhaust_from, e)
        (rw test (
          exhaust_from-counts room (suc i)
            (λ j low high. all j (omega (arith, low)) (omega (arith, high)))
            (subst (Stops answers) at stop)
          ∙ ap (λ k. ok k) (sym at)))

  -- If the file is not there yet and can be made, the program ends at the first write that does not take
  -- a whole block, after one round for each write, and counts the blocks before it.
  pub exhaust_nvmm-counts :
      (room : ℕ)
      → ((j : ℕ) → j < room → TakesAll answers j)
      → Stops answers room
      → exhaust_nvmm answers false true (suc room) ≡ ok room
  unfolding exhaust_nvmm
  exhaust_nvmm-counts room all stop =
      let at : 0 + room ≡ room = omega arith in
      exhaust_from-counts room 0 (λ j low high. all j (omega (arith, high)))
        (subst (Stops answers) (sym at) stop)
      ∙ ap (λ k. ok k) at
