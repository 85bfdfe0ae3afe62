-- ===== src/Mcp/Link/Text.antt =====
-- When a link is copied with its text, and when its copy never ends.
use gogeta_fs_ae.Common.{
  ℕ, zero, suc, ◌≤◌, ◌<◌, ◌≡◌, ◌≢◌, ◌↔◌, refl, ap, sym, ◌∙◌, true, some, List, [], ◌∷◌, ◌++◌, ltb,
  ◌==◌, All, length, take, take-length, drop, min, get_elem?, Result, ok, err, out_of_fuel, ◌>>=◌,
  if◌then◌else◌, append-nil, arith,
}
use gogeta_fs_ae.Mcp.Link.{len, c_string, read_target, append_target, handle_symbolic_link}

append_target-endless :
    (fuel : ℕ) (link target_str : List ℕ)
    → len ≤ length link
    → append_target fuel link target_str ≡ err out_of_fuel
unfolding append_target
append_target-endless zero link target_str long = refl
append_target-endless (suc f) link target_str long =
    ground (arith, append_target-endless f link (target_str ++ take (min len (length link)) link))

-- A link of 256 characters or more is read from its start again and again: the loop never ends,
-- whatever the number of rounds.
pub handle_symbolic_link-endless :
    (fuel : ℕ) (link stale : List ℕ)
    → len ≤ length link
    → handle_symbolic_link fuel link stale ≡ err out_of_fuel
unfolding handle_symbolic_link
handle_symbolic_link-endless fuel link stale long =
    ground (arith, append_target-endless fuel link (take len link))

-- A text with no NUL, and then the bytes of `rest`.
c_string-append :
    (link rest : List ℕ)
    → All (λ c. c ≢ 0) link
    → c_string (link ++ rest) ≡ (c_string rest >>= λ r. ok (link ++ r))
unfolding c_string
c_string-append [] rest h = ground arith
c_string-append (c ∷ link) rest h = ground (arith, h.0, c_string-append link rest h.1)

drop-cons :
    (n : ℕ) (l : List ℕ)
    → n < length l
    → (x : ℕ) × (rest : List ℕ) × (drop n l ≡ x ∷ rest) × (get_elem? l n ≡ some x)
drop-cons n [] h = absurd (omega arith)
drop-cons zero (x ∷ l) h = (x, l, refl, refl)
drop-cons (suc n) (x ∷ l) h = drop-cons n l (omega (arith, h))

-- The array that symlinkat is given: the link, and what the array held behind it.
short-text :
    (fuel : ℕ) (link stale : List ℕ)
    → length link < len
    → handle_symbolic_link fuel link stale ≡ c_string (link ++ drop (length link) stale)
unfolding handle_symbolic_link read_target
short-text fuel link stale short =
    let all : min len (length link) ≡ length link = omega (arith, short) in
    let test : ltb (min len (length link)) len ≡ true = ground (arith, short) in
    rw (handle_symbolic_link, test)
      (ap (λ n. c_string (take n link ++ drop n stale)) all
        ∙ ap (λ l. c_string (l ++ drop (length link) stale)) (take-length link))

empty-tail : (link r : List ℕ) → link ++ r ≡ link → r ≡ []
empty-tail [] r e = e
empty-tail (c ∷ link) r e = empty-tail link r (cc)

ended : (link : List ℕ) (m : Result (List ℕ)) → (m >>= λ r. ok (link ++ r)) ≡ ok link → m ≡ ok []
ended link (ok r) e = let same : link ++ r ≡ link = cc in ap (λ l. ok l) (empty-tail link r same)
ended link (err x) e = cc

first-zero : (x : ℕ) (rest : List ℕ) → (c_string (x ∷ rest) ≡ ok []) ↔ (x ≡ 0)
unfolding c_string
first-zero x rest = (λ e. first x (c_string rest) e, λ e. ground (arith, e))
  where
    first :
        (x : ℕ) (m : Result (List ℕ))
        → (if x == 0 then ok [] else (m >>= λ r. ok (x ∷ r))) ≡ ok []
        → x ≡ 0
    first x (ok r) e = ground (arith, e)
    first x (err y) e = ground (arith, e)

-- A link of less than 256 characters, none of them NUL, is copied with its text exactly if the array,
-- of 256 characters, happens to hold a NUL behind those that readlink stores there.
pub handle_symbolic_link-short :
    (fuel : ℕ) (link stale : List ℕ)
    → length link < len
    → length stale ≡ len
    → All (λ c. c ≢ 0) link
    → (handle_symbolic_link fuel link stale ≡ ok link) ↔ (get_elem? stale (length link) ≡ some 0)
handle_symbolic_link-short fuel link stale short size text =
    let (x, rest, cut, at) = drop-cons (length link) stale (omega (arith, short, size)) in
    let given =
      short-text fuel link stale short
      ∙ ap (λ l. c_string (link ++ l)) cut
      ∙ c_string-append link (x ∷ rest) text in
    (
      λ e.
          let zero_x = (first-zero x rest).0 (ended link (c_string (x ∷ rest)) (sym given ∙ e)) in
          at ∙ ap (λ k. some k) zero_x,
      λ e.
          let zero_x : x ≡ 0 = cc in
          given
          ∙ ap (λ m. m >>= λ r. ok (link ++ r)) ((first-zero x rest).1 zero_x)
          ∙ ap (λ l. ok l) (append-nil link),
    )
