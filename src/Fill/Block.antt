-- ===== src/Fill/Block.antt =====
-- What fill_blk writes, for the digests whose steps divide a block evenly.
use gogeta_fs_ae.Common.{
  ℕ, zero, suc, ◌+◌, ◌*◌, ◌≤◌, ◌<◌, ◌≡◌, refl, ap, sym, ◌∙◌, List, [], ◌∷◌, ◌++◌, append_assoc,
  take, drop, length, ok, arith, length-append, length-take, length-drop, take-append-drop,
}
use gogeta_fs_ae.Buffer.{write_bytes, write_bytes-append, bytes_of_u32}
use gogeta_fs_ae.Fill.{RandGener, copy_digest, copy_random}

-- `n` copies of a chunk.
unfoldable pub repeat_chunk : ℕ → List ℕ → List ℕ
repeat_chunk zero chunk = []
repeat_chunk (suc n) chunk = chunk ++ repeat_chunk n chunk

pub length-repeat_chunk :
    (n : ℕ) (chunk : List ℕ) → length (repeat_chunk n chunk) ≡ n * length chunk
unfolding repeat_chunk
length-repeat_chunk zero chunk = omega arith
length-repeat_chunk (suc n) chunk =
    omega (arith, length-append chunk (repeat_chunk n chunk), length-repeat_chunk n chunk)

-- Replacing the first part of `old`, and then the rest of it.
pub regroup : (pre a b post : List ℕ) → (pre ++ a) ++ (b ++ post) ≡ pre ++ ((a ++ b) ++ post)
regroup pre a b post =
    append_assoc pre a (b ++ post) ∙ ap (λ l. pre ++ l) (sym (append_assoc a b post))

pub cut :
    (k : ℕ) (pre old post : List ℕ)
    → pre ++ (old ++ post) ≡ pre ++ (take k old ++ (drop k old ++ post))
cut k pre old post =
    ap (λ l. pre ++ l)
      (ap (λ l. l ++ post) (sym (take-append-drop k old))
        ∙ append_assoc (take k old) (drop k old) post)

-- A write onto the first bytes of `old`.
write_first :
    (pre old post bytes : List ℕ) (p : ℕ)
    → p ≡ length pre
    → length bytes ≤ length old
    → write_bytes (pre ++ (old ++ post)) p bytes
      ≡ ok ((pre ++ bytes) ++ (drop (length bytes) old ++ post))
write_first pre old post bytes p at fits =
    let k : ℕ = length bytes in
    ap (λ l. write_bytes l p bytes) (cut k pre old post)
    ∙ write_bytes-append pre (take k old) (drop k old ++ post) bytes p at
        (omega (arith, length-take k old))
    ∙ ap ok (sym (append_assoc pre bytes (drop k old ++ post)))

copy_digest-step :
    (f : ℕ) (buf buf' : List ℕ) (blk j per_step : ℕ) (chunk : List ℕ)
    → j < per_step
    → write_bytes buf (blk + j) chunk ≡ ok buf'
    → copy_digest (suc f) buf blk j per_step chunk ≡ copy_digest f buf' blk (j + 32) per_step chunk
unfolding copy_digest
copy_digest-step f buf buf' blk j per_step chunk h e = ground arith

copy_digest-done :
    (f : ℕ) (buf : List ℕ) (blk j per_step : ℕ) (chunk : List ℕ)
    → per_step ≤ j
    → copy_digest (suc f) buf blk j per_step chunk ≡ ok buf
unfolding copy_digest
copy_digest-done f buf blk j per_step chunk h = ground arith

-- The loop of memcpy fills `r` chunks' room.
pub copy_digest-ok :
    (r f : ℕ) (pre old post : List ℕ) (blk j per_step : ℕ) (chunk : List ℕ)
    → length chunk ≡ 32
    → length old ≡ r * 32
    → blk + j ≡ length pre
    → j + r * 32 ≡ per_step
    → r < f
    → copy_digest f (pre ++ (old ++ post)) blk j per_step chunk
      ≡ ok (pre ++ (repeat_chunk r chunk ++ post))
unfolding repeat_chunk
copy_digest-ok r zero pre old post blk j per_step chunk c o at e fuel = absurd (omega arith)
copy_digest-ok zero (suc f) pre [] post blk j per_step chunk c o at e fuel =
    copy_digest-done f (pre ++ post) blk j per_step chunk (omega arith)
copy_digest-ok zero (suc f) pre (x ∷ old) post blk j per_step chunk c o at e fuel =
    absurd (omega arith)
copy_digest-ok (suc r) (suc f) pre old post blk j per_step chunk c o at e fuel =
    let left : List ℕ = drop (length chunk) old in
    copy_digest-step f (pre ++ (old ++ post)) ((pre ++ chunk) ++ (left ++ post)) blk j per_step
      chunk (omega arith) (write_first pre old post chunk (blk + j) at (omega arith))
    ∙ copy_digest-ok r f (pre ++ chunk) left post blk (j + 32) per_step chunk c
        (omega (arith, length-drop (length chunk) old)) (omega (arith, length-append pre chunk))
        (omega arith) (omega arith)
    ∙ ap ok (regroup pre chunk (repeat_chunk r chunk) post)

length-u32 : (v : ℕ) → length (bytes_of_u32 v) ≡ 4
unfolding bytes_of_u32
length-u32 v = refl

module _ {Ctx : Type 0} (g : RandGener Ctx) where
  -- `n` generated words, and the generator's state after them.
  unfoldable pub random_words : ℕ → Ctx → List ℕ × Ctx
  random_words zero ctx = ([], ctx)
  random_words (suc n) ctx =
      let next = g.genrandom ctx in
      let rest = random_words n next.0 in (bytes_of_u32 next.1 ++ rest.0, rest.1)

  pub length-random_words : (n : ℕ) (ctx : Ctx) → length (random_words n ctx).0 ≡ n * 4
  unfolding random_words bytes_of_u32
  length-random_words zero ctx = omega arith
  length-random_words (suc n) ctx = omega (arith, length-random_words n (g.genrandom ctx).0)

  copy_random-step :
      (f : ℕ) (ctx : Ctx) (buf buf' : List ℕ) (blk j per_step : ℕ)
      → j < per_step
      → write_bytes buf (blk + j) (bytes_of_u32 (g.genrandom ctx).1) ≡ ok buf'
      → copy_random (suc f) g ctx buf blk j per_step
        ≡ copy_random f g (g.genrandom ctx).0 buf' blk (j + 4) per_step
  unfolding copy_random
  copy_random-step f ctx buf buf' blk j per_step h e = ground arith

  copy_random-done :
      (f : ℕ) (ctx : Ctx) (buf : List ℕ) (blk j per_step : ℕ)
      → per_step ≤ j
      → copy_random (suc f) g ctx buf blk j per_step ≡ ok (buf, ctx)
  unfolding copy_random
  copy_random-done f ctx buf blk j per_step h = ground arith

  -- The loop of stores fills the room of `r` words.
  pub copy_random-ok :
      (r f : ℕ) (ctx : Ctx) (pre old post : List ℕ) (blk j per_step : ℕ)
      → length old ≡ r * 4
      → blk + j ≡ length pre
      → j + r * 4 ≡ per_step
      → r < f
      → copy_random f g ctx (pre ++ (old ++ post)) blk j per_step
        ≡ ok (pre ++ ((random_words r ctx).0 ++ post), (random_words r ctx).1)
  unfolding random_words
  copy_random-ok r zero ctx pre old post blk j per_step o at e fuel = absurd (omega arith)
  copy_random-ok zero (suc f) ctx pre [] post blk j per_step o at e fuel =
      copy_random-done f ctx (pre ++ post) blk j per_step (omega arith)
  copy_random-ok zero (suc f) ctx pre (x ∷ old) post blk j per_step o at e fuel =
      absurd (omega arith)
  copy_random-ok (suc r) (suc f) ctx pre old post blk j per_step o at e fuel =
      let word : List ℕ = bytes_of_u32 (g.genrandom ctx).1 in
      let four = length-u32 (g.genrandom ctx).1 in
      let left : List ℕ = drop (length word) old in
      copy_random-step f ctx (pre ++ (old ++ post)) ((pre ++ word) ++ (left ++ post)) blk j per_step
        (omega arith) (write_first pre old post word (blk + j) at (omega (arith, four)))
      ∙ copy_random-ok r f (g.genrandom ctx).0 (pre ++ word) left post blk (j + 4) per_step
          (omega (arith, four, length-drop (length word) old))
          (omega (arith, four, length-append pre word)) (omega arith) (omega arith)
      ∙ ap (λ l. ok (l, (random_words r (g.genrandom ctx).0).1))
          (regroup pre word (random_words r (g.genrandom ctx).0).0 post)
