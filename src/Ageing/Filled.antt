-- ===== src/Ageing/Filled.antt =====
-- What the filling phases write.
use gogeta_fs_ae.File.{Answer, count}
use gogeta_fs_ae.Common.{
  ℕ, zero, suc, ◌+◌, ◌*◌, ◌%◌, ◌^◌, ◌≤◌, ◌<◌, ◌≡◌, ◌≢◌, refl, ap, ap₂, sym, ◌∙◌, true, false, List,
  [], ◌∷◌, ◌++◌, min, ltb, leb, ◌==◌, ok, err, exited, out_of_bounds, ◌>>=◌, Bool-cases, inl, inr,
  >>=-ok, >>=-err, if◌then◌else◌, arith,
}
use gogeta_fs_ae.Ageing.{page_size, fill_pages, check_write, fill_file}

-- `n` pages from the number `v`.
abbrev pub counted : (v n : ℕ) → List ℕ
counted v zero = []
counted v (suc n) = v ∷ counted (suc v) n

counted-append : (v n m : ℕ) → counted v n ++ counted (v + n) m ≡ counted v (n + m)
counted-append v zero m = ap₂ counted (omega arith) (omega arith)
counted-append v (suc n) m =
    let next : suc n + m ≡ suc (n + m) = omega arith in
    let at : v + suc n ≡ suc v + n = omega arith in
    ap (λ k. v ∷ (counted (suc v) n ++ counted k m)) at
    ∙ ap (◌∷◌ v) (counted-append (suc v) n m)
    ∙ ap (counted v) (sym next)

module _ (block_size : ℕ) where
  fill_pages-whole :
      (m f j v : ℕ)
      → j + m * 4096 ≡ block_size
      → m < f
      → v + m < 2 ^ 64
      → fill_pages block_size f j v ≡ ok (counted v m, v + m)
  unfolding fill_pages
  fill_pages-whole m zero j v end enough small = absurd (omega (arith, enough))
  fill_pages-whole zero (suc f) j v end enough small =
      let over : ltb j block_size ≡ false = ground (arith, end) in
      let same : v ≡ v + 0 = omega arith in rw (fill_pages, over) (ap (λ w. ok ([], w)) same)
  fill_pages-whole (suc m) (suc f) j v end enough small =
      let more : ltb j block_size ≡ true = ground (arith, end) in
      let room : leb (j + page_size) block_size ≡ true = ground (arith, end) in
      let wraps : (v + 1) % 2 ^ 64 ≡ suc v = omega (arith, small) in
      let last : suc v + m ≡ v + suc m = omega arith in
      rw (fill_pages, more)
        (rw room (
          ap (λ w. fill_pages block_size f (j + page_size) w >>= λ r. ok (v ∷ r.0, r.1)) wraps
          ∙ >>=-ok _ (
              fill_pages-whole m f (j + page_size) (suc v) (omega (arith, end))
                (omega (arith, enough)) (omega (arith, small)))
          ∙ ap (λ w. ok (v ∷ counted (suc v) m, w)) last))

  fill_pages-cut :
      (f j v : ℕ)
      → block_size % 4096 ≢ 0
      → j % 4096 ≡ 0
      → j ≤ block_size
      → block_size < j + f
      → fill_pages block_size f j v ≡ err out_of_bounds
  unfolding fill_pages
  fill_pages-cut zero j v cut even le enough = absurd (omega (arith, le, enough))
  fill_pages-cut (suc f) j v cut even le enough =
      let more : ltb j block_size ≡ true = ground (arith, cut, even, le) in
      elim (Bool-cases (leb (j + page_size) block_size)) [
        | inl e ↦
            rw (fill_pages, more)
              (rw e (
                >>=-err _ (
                  fill_pages-cut f (j + page_size) ((v + 1) % 2 ^ 64) cut (omega (arith, even))
                    (ground (arith, e)) (omega (arith, enough)))))
        | inr e ↦ rw (fill_pages, more) (rw e refl)
      ]

  check_write-ok :
      (k : ℕ) → block_size < 2 ^ 31 → block_size ≤ k → check_write block_size (count k) ≡ ok tt
  unfolding check_write
  check_write-ok k small whole =
      let ret : min k block_size % 2 ^ 32 ≡ block_size = omega (arith, small, whole) in
      let sign : leb (2 ^ 31) block_size ≡ false = ground (arith, small) in
      let same : (block_size == block_size) ≡ true = ground arith in
      ap
        (λ r.
          if leb (2 ^ 31) r
          then err (exited 1)
          else (if r == block_size then ok tt else err (exited 1)))
        ret
      ∙ rw sign (rw same refl)

  -- With blocks of `m` pages, of less than 2 ^ 31 bytes, that write takes whole, the pages of `n` blocks
  -- count up from `v`.
  pub fill_file-counted :
      (m : ℕ) (answers : ℕ → Answer)
      → m * 4096 ≡ block_size
      → block_size < 2 ^ 31
      → ((i : ℕ) → (k : ℕ) × (answers i ≡ count k) × (block_size ≤ k))
      → (n calls v : ℕ) → v + n * m < 2 ^ 64
      → fill_file block_size answers n calls v ≡ ok (counted v (n * m))
  unfolding fill_file
  fill_file-counted m answers pages small whole zero calls v room =
      let nothing : 0 ≡ 0 * m = omega arith in ap (λ n. ok (counted v n)) nothing
  fill_file-counted m answers pages small whole (suc n) calls v room =
      let (k, e, full) = whole calls in
      let more : m + n * m ≡ suc n * m = grind arith in
      >>=-ok _ (
        fill_pages-whole m (suc block_size) 0 v (omega (arith, pages)) (omega (arith, pages))
          (omega (arith, room, more)))
      ∙ >>=-ok _ (ap (check_write block_size) e ∙ check_write-ok k small full)
      ∙ >>=-ok _ (
          fill_file-counted m answers pages small whole n (suc calls) (v + m)
            (omega (arith, room, more)))
      ∙ ap ok (counted-append v m (n * m) ∙ ap (counted v) more)

  -- Where the size of a block is no multiple of 4096 and there is a block to write, the first block
  -- fills a page behind the end of the buffer.
  pub fill_file-overrun :
      (answers : ℕ → Answer) (n calls v : ℕ)
      → block_size % 4096 ≢ 0
      → fill_file block_size answers (suc n) calls v ≡ err out_of_bounds
  unfolding fill_file
  fill_file-overrun answers n calls v cut =
      >>=-err _ (fill_pages-cut (suc block_size) 0 v cut (omega arith) (omega arith) (omega arith))
