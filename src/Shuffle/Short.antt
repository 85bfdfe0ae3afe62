-- ===== src/Shuffle/Short.antt =====
-- A file that is shorter than a block.
use native.Mathlib.Nat.{div-eq_of_lt}
use gogeta_fs_ae.File.{Answer, count}
use gogeta_fs_ae.Buffer.{write_bytes, write_bytes-append}
use gogeta_fs_ae.Common.{
  ℕ, ◌+◌, ◌*◌, ◌/◌, ◌≡◌, ◌≤◌, ◌<◌, ap, ap₂, sym, ◌∙◌, true, false, List, [], ◌∷◌, ◌++◌, leb, ◌==◌,
  length, length-append, length-take, length-drop, take, drop, take-append-drop, take-all,
  take-length, min, ok, ◌>>=◌, >>=-ok, if◌then◌else◌, arith,
}
use gogeta_fs_ae.Shuffle.{
  num_blocks_of, identity_map, read_blocks, write_shuffled, Surroundings, shuffle_and_write,
}

module _ (granularity : ℕ) where
  num_blocks_of-short : (size : ℕ) → size < granularity → num_blocks_of size granularity ≡ ok 1
  unfolding num_blocks_of
  num_blocks_of-short size short =
      let q : size / granularity ≡ 0 = div-eq_of_lt short in
      let nonzero : (granularity == 0) ≡ false = ground (arith, short) in
      rw nonzero (ap (λ d. ok (if d == 0 then 1 else d)) q)

  read_blocks-short :
      (answers : ℕ → Answer) (file buf : List ℕ) (k : ℕ)
      → answers 0 ≡ count k
      → length file ≤ k
      → length file < granularity
      → length buf ≡ granularity
      → read_blocks granularity answers 1 0 file buf ≡ ok (file ++ drop (length file) buf)
  unfolding read_blocks
  read_blocks-short answers file buf k e all short room =
      let ret : min k (min granularity (length file)) ≡ length file = omega (arith, all, short) in
      let old = take (length file) buf in
      let post = drop (length file) buf in
      let at : 0 * granularity ≡ 0 = omega arith in
      rw (read_blocks, e)
        (ap (λ r. write_bytes buf (0 * granularity) (take r file) >>= λ b. ok b) ret
          ∙ >>=-ok _ (
              ap₂ (λ l bytes. write_bytes l (0 * granularity) bytes)
                (sym (take-append-drop (length file) buf)) (take-length file)
              ∙ write_bytes-append [] old post file (0 * granularity) at
                  (omega (arith, length-take (length file) buf, room, short))))

  write_shuffled-single :
      (answers : ℕ → Answer) (buf : List ℕ) (k : ℕ)
      → answers 0 ≡ count k
      → granularity ≤ k
      → length buf ≡ granularity
      → write_shuffled granularity answers 0 (0 ∷ []) buf [] ≡ ok buf
  unfolding write_shuffled
  write_shuffled-single answers buf k e whole room =
      let fits : leb (0 * granularity + granularity) (length buf) ≡ true = ground (arith, room) in
      let sent : min k granularity ≡ granularity = omega (arith, whole) in
      let at : 0 * granularity ≡ 0 = omega arith in
      rw (write_shuffled, fits)
        (rw e (
          ap₂ (λ n p. ok (take n (drop p buf))) sent at
          ∙ ap ok (take-all granularity buf (omega (arith, room)))))

  -- If malloc gives as many bytes as are asked for, the shuffle leaves a single block, the read
  -- transfers the whole file and the write the whole block: the new file of a file that is shorter than
  -- the granularity has the granularity's bytes, the file's and then what malloc left in the buffer.
  pub shuffle_and_write-short :
      (s : Surroundings) (file : List ℕ)
      → length file < granularity
      → ((k : ℕ) → length (s.malloced k) ≡ k)
      → s.random_shuffle (0 ∷ []) ≡ 0 ∷ []
      → (k k' : ℕ) → s.reads 0 ≡ count k
      → length file ≤ k
      → s.writes 0 ≡ count k'
      → granularity ≤ k'
      → shuffle_and_write s granularity file
        ≡ ok (file ++ drop (length file) (s.malloced (granularity * 1)))
  unfolding shuffle_and_write identity_map
  shuffle_and_write-short s file short gives single k k' reads all writes whole =
      let buf = s.malloced (granularity * 1) in
      let room : length buf ≡ granularity = gives (granularity * 1) ∙ omega arith in
      let kept = length-drop (length file) buf in
      >>=-ok _ (num_blocks_of-short (length file) short)
      ∙ >>=-ok _ (read_blocks-short s.reads file buf k reads all short room)
      ∙ ap (λ l. write_shuffled granularity s.writes 0 l (file ++ drop (length file) buf) []) single
      ∙ write_shuffled-single s.writes (file ++ drop (length file) buf) k' writes whole
          (omega (arith, length-append file (drop (length file) buf), kept, room, short))
