-- ===== src/File/Write.antt =====
-- A write of several blocks in one call is the writes of its blocks, one behind the other.
use gogeta_fs_ae.Common.{
  ℕ, zero, suc, ◌+◌, ◌-◌, ◌≤◌, ◌≡◌, refl, ap, ap₂, sym, ◌∙◌, List, [], ◌∷◌, ◌++◌, append_assoc,
  append-nil, length, take, drop, replicate, length-append, length-take, length-replicate,
  take-append-drop, take-length, min, arith,
}
use gogeta_fs_ae.Buffer.{patch, take-prefix, drop-prefix}
use gogeta_fs_ae.File.{count, pad, file_write, pwrite}

drop-nil : (n : ℕ) → drop {A = ℕ} n [] ≡ []
drop-nil zero = refl
drop-nil (suc n) = refl

pub drop-drop : (m n k : ℕ) (l : List ℕ) → k ≡ n + m → drop m (drop n l) ≡ drop k l
drop-drop m zero k l e = let same : m ≡ k = omega arith in ap (λ i. drop i l) same
drop-drop m (suc n) k [] e = drop-nil m ∙ sym (drop-nil k)
drop-drop m (suc n) zero (x ∷ l) e = absurd (omega arith)
drop-drop m (suc n) (suc k) (x ∷ l) e = drop-drop m n k l (omega arith)

-- A patch behind a known prefix.
patch-at :
    (pre rest : List ℕ) (p : ℕ) (bytes : List ℕ)
    → p ≡ length pre
    → patch (pre ++ rest) p bytes ≡ pre ++ (bytes ++ drop (length bytes) rest)
unfolding patch
patch-at pre rest p bytes at = ap₂ ◌++◌ (ap (λ n. take n (pre ++ rest)) at ∙ take-prefix pre rest) (
    ap (λ l. bytes ++ l)
      (drop-prefix pre rest (p + length bytes) (length bytes) (omega (arith, at))))

patch-split :
    (file : List ℕ) (p : ℕ) (a b : List ℕ)
    → p ≤ length file
    → patch file p (a ++ b) ≡ patch (patch file p a) (p + length a) b
patch-split file p a b fits =
    let pre : List ℕ = take p file in
    let rest : List ℕ = drop p file in
    let size : p ≡ length pre = omega (arith, length-take p file) in
    let cut = sym (take-append-drop p file) in
    ap (λ l. patch l p (a ++ b)) cut
    ∙ patch-at pre rest p (a ++ b) size
    ∙ ap (λ l. pre ++ l)
        (append_assoc a b (drop (length (a ++ b)) rest)
          ∙ ap (λ l. a ++ (b ++ l))
              (sym (
                drop-drop (length b) (length a) (length (a ++ b)) rest
                  (omega (arith, length-append a b)))))
    ∙ sym (append_assoc pre a (b ++ drop (length b) (drop (length a) rest)))
    ∙ sym (
        patch-at (pre ++ a) (drop (length a) rest) (p + length a) b
          (omega (arith, length-append pre a)))
    ∙ ap (λ l. patch l (p + length a) b)
        (append_assoc pre a (drop (length a) rest) ∙ sym (patch-at pre rest p a size))
    ∙ ap (λ l. patch (patch l p a) (p + length a) b) (sym cut)

length-pad : (file : List ℕ) (ofs : ℕ) → ofs ≤ length (pad file ofs)
unfolding pad
length-pad file ofs = omega (
  arith,
  length-append file (replicate (ofs - length file) 0),
  length-replicate {A = ℕ} (ofs - length file) 0,
)

pad-enough : (file : List ℕ) (ofs : ℕ) → ofs ≤ length file → pad file ofs ≡ file
unfolding pad
pad-enough file ofs h =
    let none_missing : ofs - length file ≡ 0 = omega arith in
    ap (λ n. file ++ replicate n 0) none_missing ∙ append-nil file

length-patch_end :
    (file : List ℕ) (p : ℕ) (a : List ℕ) → p ≤ length file → p + length a ≤ length (patch file p a)
unfolding patch
length-patch_end file p a h = omega (
  arith,
  length-append (take p file) (a ++ drop (p + length a) file),
  length-append a (drop (p + length a) file),
  length-take p file,
)

-- One call for two adjacent parts is a call for each.
pub file_write-append :
    (file : List ℕ) (ofs : ℕ) (a b : List ℕ)
    → file_write file ofs (a ++ b) ≡ file_write (file_write file ofs a) (ofs + length a) b
unfolding file_write
file_write-append file ofs a b =
    let padded : List ℕ = pad file ofs in
    let enough = length-pad file ofs in
    patch-split padded ofs a b enough
    ∙ ap (λ l. patch l (ofs + length a) b)
        (sym
          (pad-enough (patch padded ofs a) (ofs + length a) (length-patch_end padded ofs a enough)))

-- A write at the end of the file appends.
pub file_write-end : (file bytes : List ℕ) → file_write file (length file) bytes ≡ file ++ bytes
unfolding file_write
file_write-end file bytes =
    ap (λ l. patch l (length file) bytes) (pad-enough file (length file) (omega arith))
    ∙ ap (λ l. patch l (length file) bytes) (sym (append-nil file))
    ∙ patch-at file [] (length file) bytes refl
    ∙ ap (λ l. file ++ (bytes ++ l)) (drop-nil (length bytes))
    ∙ ap (λ l. file ++ l) (append-nil bytes)

-- A call that transfers all of its bytes.
pub pwrite-all :
    (n : ℕ) (file bytes : List ℕ) (ofs : ℕ)
    → length bytes ≤ n
    → pwrite (count n) file bytes ofs ≡ (file_write file ofs bytes, length bytes)
unfolding pwrite
pwrite-all n file bytes ofs h =
    let all : min n (length bytes) ≡ length bytes = omega arith in
    ap (λ k. (file_write file ofs (take k bytes), k)) all
    ∙ ap (λ l. (file_write file ofs l, length bytes)) (take-length bytes)
