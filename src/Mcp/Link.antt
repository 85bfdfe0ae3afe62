-- ===== src/Mcp/Link.antt =====
-- mcp/src/main.cpp: handle_symbolic_link. `link` is the text of the link, as readlink gives it, and
-- `stale` is what the array `target` held before; the result is the text of the new link.
pub mod Text
use gogeta_fs_ae.Common.{
  ℕ, zero, suc, ◌+◌, true, false, List, [], ◌∷◌, ◌++◌, ltb, ◌==◌, length, take, drop, min, Result,
  ok, err, out_of_bounds, out_of_fuel, ◌>>=◌, if◌then◌else◌,
}

abbrev pub len : ℕ
len = 256

-- A C string: the bytes before the first NUL.
unfoldable pub c_string : List ℕ → Result (List ℕ)
c_string [] = err out_of_bounds
c_string (c ∷ s) = if c == 0 then ok [] else (c_string s >>= λ r. ok (c ∷ r))

-- `ret = readlink(de->d_name, target, len)`: the array after it. readlink adds no NUL.
unfoldable pub read_target : (link stale : List ℕ) → List ℕ
read_target link stale = take (min len (length link)) link ++ drop (min len (length link)) stale

-- `do ... while (ret == len)`: each call of readlink begins at the start of the link.
unfoldable pub append_target : ℕ → (link target_str : List ℕ) → Result (List ℕ)
append_target zero link target_str = err out_of_fuel
append_target (suc f) link target_str =
    let ret : ℕ = min len (length link) in
    let longer : List ℕ = target_str ++ take ret link in
    elim (ret == len) [ true ↦ append_target f link longer | false ↦ ok longer ]

-- The text given to symlinkat; `fuel` bounds the rounds of the loop.
unfoldable pub handle_symbolic_link : (fuel : ℕ) → (link stale : List ℕ) → Result (List ℕ)
handle_symbolic_link fuel link stale =
    let ret : ℕ = min len (length link) in
    elim (ltb ret len) [
      | true ↦ c_string (read_target link stale)
      | false ↦ append_target fuel link (take len link) >>= λ s. c_string (s ++ 0 ∷ [])
    ]
