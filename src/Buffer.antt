-- ===== src/Buffer.antt =====
-- Byte buffers and files as lists of bytes: writing and reading a range of them.
use gogeta_fs_ae.Common.{
  ℕ, zero, suc, ◌+◌, ◌/◌, ◌%◌, ◌≤◌, ◌<◌, ◌≡◌, refl, ap, ap₂, sym, ◌∙◌, List, [], ◌∷◌, ◌++◌, length,
  take, drop, leb, Result, ok, err, out_of_bounds, if◌then◌else◌, arith, append_assoc, le→leb,
  length-append, length-take, length-drop,
}

-- `bytes` in place of what stood from index `p` on.
unfoldable pub patch : List ℕ → ℕ → List ℕ → List ℕ
patch buf p bytes = take p buf ++ (bytes ++ drop (p + length bytes) buf)

-- memcpy and stores into a buffer: undefined behaviour past its end.
unfoldable pub write_bytes : List ℕ → ℕ → List ℕ → Result (List ℕ)
unfolding patch
write_bytes buf p bytes =
    if leb (p + length bytes) (length buf) then ok (patch buf p bytes) else err out_of_bounds

-- The four bytes of a uint32_t, in the machine's (little-endian) order, and back.
unfoldable pub bytes_of_u32 : ℕ → List ℕ
bytes_of_u32 v = (v % 256) ∷ (v / 256 % 256) ∷ (v / 65536 % 256) ∷ (v / 16777216 % 256) ∷ []

pub length-patch :
    (buf : List ℕ) (p : ℕ) (bytes : List ℕ)
    → p + length bytes ≤ length buf
    → length (patch buf p bytes) ≡ length buf
unfolding patch
length-patch buf p bytes h = omega (
  arith,
  length-append (take p buf) (bytes ++ drop (p + length bytes) buf),
  length-append bytes (drop (p + length bytes) buf),
  length-take p buf,
  length-drop (p + length bytes) buf,
)

pub take-prefix : (pre l : List ℕ) → take (length pre) (pre ++ l) ≡ pre
take-prefix [] l = refl
take-prefix (x ∷ pre) l = ap (◌∷◌ x) (take-prefix pre l)

pub drop-prefix : (pre l : List ℕ) (n k : ℕ) → n ≡ length pre + k → drop n (pre ++ l) ≡ drop k l
drop-prefix [] l n k e = let same : n ≡ k = omega arith in ap (λ m. drop m l) same
drop-prefix (x ∷ pre) l zero k e = absurd (omega arith)
drop-prefix (x ∷ pre) l (suc n) k e = drop-prefix pre l n k (omega arith)

pub drop-whole : (old post : List ℕ) (n : ℕ) → n ≡ length old → drop n (old ++ post) ≡ post
drop-whole [] post zero e = refl
drop-whole [] post (suc n) e = absurd (omega arith)
drop-whole (x ∷ old) post zero e = absurd (omega arith)
drop-whole (x ∷ old) post (suc n) e = drop-whole old post n (omega arith)

-- A patch onto a part of the same length replaces that part.
pub patch-append :
    (pre old post bytes : List ℕ) (p : ℕ)
    → p ≡ length pre
    → length bytes ≡ length old
    → patch (pre ++ (old ++ post)) p bytes ≡ pre ++ (bytes ++ post)
unfolding patch
patch-append pre old post bytes p at same =
    ap₂ ◌++◌ (ap (λ n. take n (pre ++ (old ++ post))) at ∙ take-prefix pre (old ++ post)) (
      ap (λ l. bytes ++ l)
        (drop-prefix pre (old ++ post) (p + length bytes) (length bytes) (omega (arith, at))
          ∙ drop-whole old post (length bytes) same))

pub write_bytes-append :
    (pre old post bytes : List ℕ) (p : ℕ)
    → p ≡ length pre
    → length bytes ≡ length old
    → write_bytes (pre ++ (old ++ post)) p bytes ≡ ok (pre ++ (bytes ++ post))
unfolding write_bytes
write_bytes-append pre old post bytes p at same =
    let fits : p + length bytes ≤ length (pre ++ (old ++ post)) =
      omega (arith, length-append pre (old ++ post), length-append old post) in
    rw (le→leb _ _ fits) (ap ok (patch-append pre old post bytes p at same))

-- A write succeeds exactly inside the buffer.
pub write_bytes-fits :
    (buf : List ℕ) (p : ℕ) (bytes : List ℕ)
    → p + length bytes ≤ length buf
    → write_bytes buf p bytes ≡ ok (patch buf p bytes)
unfolding write_bytes
write_bytes-fits buf p bytes fits = rw (le→leb _ _ fits)

pub write_bytes-overruns :
    (buf : List ℕ) (p : ℕ) (bytes : List ℕ)
    → length buf < p + length bytes
    → write_bytes buf p bytes ≡ err out_of_bounds
unfolding write_bytes
write_bytes-overruns buf p bytes h = ground arith

-- Up to the end of a patch: what stood before it, and the patch.
pub take-patch :
    (buf : List ℕ) (p n : ℕ) (bytes : List ℕ)
    → p ≤ length buf
    → n ≡ p + length bytes
    → take n (patch buf p bytes) ≡ take p buf ++ bytes
unfolding patch
take-patch buf p n bytes h e =
    let head : List ℕ = take p buf in
    let rest : List ℕ = drop (p + length bytes) buf in
    let size : n ≡ length (head ++ bytes) =
      omega (arith, length-append head bytes, length-take p buf) in
    ap (take n) (sym (append_assoc head bytes rest))
    ∙ ap (λ k. take k (head ++ bytes ++ rest)) size
    ∙ take-prefix (head ++ bytes) rest
