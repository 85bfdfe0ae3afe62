-- ===== src/Fill/Content.antt =====
-- The content that fill_blk gives a block, and when it depends on the digest alone.
use gogeta_fs_ae.Common.{
  ℕ, zero, suc, ◌+◌, ◌*◌, ◌/◌, ◌≤◌, ◌≡◌, ◌≢◌, ◌⊎◌, inl, inr, refl, ap, ap₂, sym, ◌∙◌, Option, none,
  some, Bool, false, List, [], ◌∷◌, ◌++◌, append_assoc, take, drop, length, ◌==◌, Result, ok, err,
  div_by_zero, >>=-ok, if◌then◌else◌, arith, length-append, length-take, length-drop,
}
use gogeta_fs_ae.Fill.{RandGener, blk_size, seed_of, fill_step, fill_steps, fill_blk}
use gogeta_fs_ae.Fill.Block.{
  repeat_chunk, length-repeat_chunk, regroup, cut, copy_digest-ok, random_words,
  length-random_words, copy_random-ok,
}

module _ {Ctx : Type 0} where
  -- The content of one step of `r` times 32 bytes: the digest's chunk, or words seeded by it.
  unfoldable pub step_content : Option (RandGener Ctx) → Ctx → ℕ → List ℕ → List ℕ × Ctx
  step_content none ctx r md5 = (repeat_chunk r (take 32 md5), ctx)
  step_content (some g) ctx r md5 = random_words g (r * 8) (g.fedseed ctx (seed_of (take 4 md5)))

  -- The content of `n` steps.
  unfoldable pub block_content : ℕ → Option (RandGener Ctx) → Ctx → ℕ → List ℕ → List ℕ × Ctx
  block_content zero g ctx r md5 = ([], ctx)
  block_content (suc n) g ctx r md5 =
      let here = step_content g ctx r md5 in
      let rest = block_content n g here.1 r (drop 32 md5) in (here.0 ++ rest.0, rest.1)

  pub length-step_content :
      (g : Option (RandGener Ctx)) (ctx : Ctx) (r : ℕ) (md5 : List ℕ)
      → 32 ≤ length md5
      → length (step_content g ctx r md5).0 ≡ r * 32
  unfolding step_content
  length-step_content none ctx r md5 h =
      length-repeat_chunk r (take 32 md5) ∙ ap (λ n. r * n) (length-chunk md5 h)
    where
      length-chunk : (l : List ℕ) → 32 ≤ length l → length (take 32 l) ≡ 32
      length-chunk l le = omega (arith, length-take 32 l)
  length-step_content (some g) ctx r md5 h =
      omega (arith, length-random_words g (r * 8) (g.fedseed ctx (seed_of (take 4 md5))))

  pub length-block_content :
      (n : ℕ) (g : Option (RandGener Ctx)) (ctx : Ctx) (r : ℕ) (md5 : List ℕ)
      → n * 32 ≤ length md5
      → length (block_content n g ctx r md5).0 ≡ n * (r * 32)
  unfolding block_content
  length-block_content zero g ctx r md5 h = omega arith
  length-block_content (suc n) g ctx r md5 h =
      let here = step_content g ctx r md5 in
      omega (
        arith,
        length-append here.0 (block_content n g here.1 r (drop 32 md5)).0,
        length-step_content g ctx r md5 (omega arith),
        length-block_content n g here.1 r (drop 32 md5) (omega (arith, length-drop 32 md5)),
      )

  fill_step-ok :
      (g : Option (RandGener Ctx)) (ctx : Ctx) (pre old post md5 : List ℕ) (blk r : ℕ)
      → 32 ≤ length md5
      → length old ≡ r * 32
      → blk ≡ length pre
      → r ≤ 128
      → fill_step g ctx (pre ++ (old ++ post)) blk (r * 32) md5
        ≡ ok (pre ++ ((step_content g ctx r md5).0 ++ post), (step_content g ctx r md5).1)
  unfolding fill_step step_content
  fill_step-ok none ctx pre old post md5 blk r h o at small = >>=-ok _ (
      copy_digest-ok r (suc blk_size) pre old post blk 0 (r * 32) (take 32 md5)
        (omega (arith, length-take 32 md5)) o (omega arith) (omega arith) (omega arith))
  fill_step-ok (some g) ctx pre old post md5 blk r h o at small =
      copy_random-ok g (r * 8) (suc blk_size) (g.fedseed ctx (seed_of (take 4 md5))) pre old post
        blk 0 (r * 32) (omega arith) (omega arith) (omega arith) (omega arith)

  fill_steps-ok :
      (n : ℕ) (g : Option (RandGener Ctx)) (ctx : Ctx) (pre old post md5 : List ℕ) (blk r : ℕ)
      → n * 32 ≤ length md5
      → length old ≡ n * (r * 32)
      → blk ≡ length pre
      → r ≤ 128
      → fill_steps n g ctx (pre ++ (old ++ post)) blk (r * 32) md5
        ≡ ok (pre ++ ((block_content n g ctx r md5).0 ++ post), (block_content n g ctx r md5).1)
  unfolding fill_steps block_content
  fill_steps-ok zero g ctx pre [] post md5 blk r h o at small = refl
  fill_steps-ok zero g ctx pre (x ∷ old) post md5 blk r h o at small = absurd (omega arith)
  fill_steps-ok (suc n) g ctx pre old post md5 blk r h o at small =
      let here = step_content g ctx r md5 in
      let size = length-step_content g ctx r md5 (omega arith) in
      let k : ℕ = r * 32 in
      let left : List ℕ = drop k old in
      ap (λ l. fill_steps (suc n) g ctx l blk k md5) (cut k pre old post)
      ∙ >>=-ok _ (
          fill_step-ok g ctx pre (take k old) (left ++ post) md5 blk r (omega arith)
            (omega (arith, length-take k old)) at small)
      ∙ ap (λ l. fill_steps n g here.1 l (blk + k) k (drop 32 md5))
          (sym (append_assoc pre here.0 (left ++ post)))
      ∙ fill_steps-ok n g here.1 (pre ++ here.0) left post (drop 32 md5) (blk + k) r
          (omega (arith, length-drop 32 md5)) (omega (arith, length-drop k old))
          (omega (arith, length-append pre here.0, size)) small
      ∙ ap (λ l. ok (l, (block_content n g here.1 r (drop 32 md5)).1))
          (regroup pre here.0 (block_content n g here.1 r (drop 32 md5)).0 post)

-- The numbers of steps that divide a block into whole chunks.
abbrev pub IsEvenStep : ℕ → Type 0
IsEvenStep step = (step ≡ 1) ⊎ ((step ≡ 2) ⊎ ((step ≡ 4) ⊎ (step ≡ 8)))

even_cases :
    (step : ℕ)
    → IsEvenStep step
    → (step ≢ 0)
      × (blk_size / step ≡ 128 / step * 32)
      × (step * (128 / step * 32) ≡ blk_size)
      × (128 / step ≤ 128)
even_cases step (inl e) = rw e (omega arith)
even_cases step (inr (inl e)) = rw e (omega arith)
even_cases step (inr (inr (inl e))) = rw e (omega arith)
even_cases step (inr (inr (inr e))) = rw e (omega arith)

module _ {Ctx : Type 0} where
  -- Seeding forgets the state before it.
  abbrev pub Reseeds : Option (RandGener Ctx) → Type 0
  Reseeds none = Unit
  Reseeds (some g) = (ctx ctx' : Ctx) (s : ℕ) → g.fedseed ctx s ≡ g.fedseed ctx' s

  step_content-agree :
      (g : Option (RandGener Ctx)) (ctx ctx' : Ctx) (r : ℕ) (md5 : List ℕ)
      → Reseeds g
      → (step_content g ctx r md5).0 ≡ (step_content g ctx' r md5).0
  unfolding step_content
  step_content-agree none ctx ctx' r md5 h = refl
  step_content-agree (some g) ctx ctx' r md5 h =
      ap (λ c. (random_words g (r * 8) c).0) (h ctx ctx' (seed_of (take 4 md5)))

  block_content-agree :
      (n : ℕ) (g : Option (RandGener Ctx)) (ctx ctx' : Ctx) (r : ℕ) (md5 : List ℕ)
      → Reseeds g
      → (block_content n g ctx r md5).0 ≡ (block_content n g ctx' r md5).0
  unfolding block_content
  block_content-agree zero g ctx ctx' r md5 h = refl
  block_content-agree (suc n) g ctx ctx' r md5 h =
      ap₂ ◌++◌ (step_content-agree g ctx ctx' r md5 h) (
        block_content-agree n g (step_content g ctx r md5).1 (step_content g ctx' r md5).1 r
          (drop 32 md5) h)

  fill_blk-step :
      (g : Option (RandGener Ctx)) (ctx : Ctx) (pre old post md5 : List ℕ) (step r : ℕ)
      → length md5 / 32 ≡ step
      → step ≢ 0
      → blk_size / step ≡ r * 32
      → length old ≡ step * (r * 32)
      → r ≤ 128
      → fill_blk g ctx (pre ++ (old ++ post)) (length pre) md5
        ≡ ok (
          pre ++ ((block_content step g ctx r md5).0 ++ post),
          (block_content step g ctx r md5).1,
        )
  unfolding fill_blk
  fill_blk-step g ctx pre old post md5 step r e some_step per o small =
      let buf : List ℕ = pre ++ (old ++ post) in
      let run : ℕ → ℕ → Result (List ℕ × Ctx) = λ n k. fill_steps n g ctx buf (length pre) k md5 in
      ap (λ n. if n == 0 then err div_by_zero else run n (blk_size / n)) e
      ∙ pick (step == 0) (run step (blk_size / step)) (ground arith)
      ∙ ap (run step) per
      ∙ fill_steps-ok step g ctx pre old post md5 (length pre) r (omega arith) o refl small
    where
      pick :
          (b : Bool) (m : Result (List ℕ × Ctx))
          → b ≡ false
          → (if b then err div_by_zero else m) ≡ m
      pick b m no_trap = rw no_trap

  -- The block that fill_blk makes of a digest.
  unfoldable pub digest_block : Option (RandGener Ctx) → Ctx → List ℕ → List ℕ
  digest_block g ctx md5 =
      let step : ℕ = length md5 / 32 in (block_content step g ctx (128 / step) md5).0

  pub length-digest_block :
      (g : Option (RandGener Ctx)) (ctx : Ctx) (md5 : List ℕ)
      → IsEvenStep (length md5 / 32)
      → length (digest_block g ctx md5) ≡ blk_size
  unfolding digest_block
  length-digest_block g ctx md5 even =
      let step : ℕ = length md5 / 32 in
      length-block_content step g ctx (128 / step) md5 (omega arith) ∙ (even_cases step even).2

  -- For a digest of 1, 2, 4 or 8 steps of 32 characters, fill_blk overwrites exactly the block of
  -- 4096 bytes at its pointer and leaves the rest of the buffer as it was. With no generator, or one
  -- that seeding resets, the block is the same for equal digests, whatever the generator's state and
  -- the buffer were.
  pub fill_blk-digest_block :
      (g : Option (RandGener Ctx)) (ctx₀ : Ctx) (md5 : List ℕ)
      → Reseeds g
      → IsEvenStep (length md5 / 32)
      → (ctx : Ctx) (pre old post : List ℕ) → length old ≡ blk_size
      → (length (digest_block g ctx₀ md5) ≡ blk_size)
        × ((ctx' : Ctx) × (fill_blk g ctx (pre ++ (old ++ post)) (length pre) md5
              ≡ ok (pre ++ (digest_block g ctx₀ md5 ++ post), ctx')))
  unfolding digest_block
  fill_blk-digest_block g ctx₀ md5 reset even ctx pre old post o =
      let step : ℕ = length md5 / 32 in
      let r : ℕ = 128 / step in
      let (some_step, per, whole, small) = even_cases step even in
      (
        length-digest_block g ctx₀ md5 even,
        (
          (block_content step g ctx r md5).1,
          fill_blk-step g ctx pre old post md5 step r refl some_step per (o ∙ sym whole) small
              ∙ ap (λ l. ok (pre ++ (l ++ post), (block_content step g ctx r md5).1))
                  (block_content-agree step g ctx ctx₀ r md5 reset),
        ),
      )
