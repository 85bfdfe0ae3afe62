-- ===== src/Hints/Size.antt =====
-- The buffer of a worker is not larger than its traces.
use gogeta_fs_ae.Common.{
  ℕ, zero, suc, ◌+◌, ◌-◌, ◌≤◌, ◌≡◌, Bool, true, false, List, [], length, get_elem?, ok, >>=-eq-ok,
  read, if◌then◌else◌, arith,
}
use gogeta_fs_ae.Trace.{TraceInfo}
use gogeta_fs_ae.Hints.{Scan, continues, save_hint, scan_from, extract_hints}

module _ (infos : List TraceInfo) (m : ℕ) where
  save_hint-le :
      (j : ℕ) (s s' : Scan)
      → save_hint infos j s ≡ ok s'
      → s.max_continuous ≤ m
      → j ≤ m
      → s'.max_continuous ≤ m
  unfolding save_hint
  save_hint-le j s s' e le small = ground (arith, e, le, small)

  scan_from-le :
      (max_blks n j : ℕ) (s s' : Scan)
      → scan_from max_blks infos n j s ≡ ok s'
      → s.max_continuous ≤ m
      → j + n ≤ suc m
      → s'.max_continuous ≤ m
  unfolding scan_from
  scan_from-le max_blks zero j s s' e le small = ground (arith, e, le)
  scan_from-le max_blks (suc n) j s s' e le small =
      let (info, f₁, e₁) = >>=-eq-ok (read (get_elem? infos j)) _ e in
      let (pre, f₂, e₂) = >>=-eq-ok (read (get_elem? infos (j - 1))) _ f₁ in
      let (t, f₃, e₃) =
        >>=-eq-ok
          (if continues max_blks pre info j s.consecutive_start then ok s else save_hint infos j s)
          _ f₂ in
      scan_from-le max_blks n (suc j) t s' f₃
        (kept (continues max_blks pre info j s.consecutive_start) t e₃) (omega (arith, small))
    where
      kept :
          (b : Bool) (t : Scan)
          → (if b then ok s else save_hint infos j s) ≡ ok t
          → t.max_continuous ≤ m
      kept true t e = ground (arith, e, le)
      kept false t e = save_hint-le j s t e le (omega (arith, small))

-- The hints need no more blocks of a buffer than there are traces.
pub extract_hints-le :
    (max_blks : ℕ) (infos : List TraceInfo) (s : Scan)
    → 1 ≤ length infos
    → extract_hints max_blks infos ≡ ok s
    → s.max_continuous ≤ length infos
unfolding extract_hints
extract_hints-le max_blks infos s some_trace e =
    let start : Scan = record { hints = []; max_continuous = 0; consecutive_start = 0 } in
    let (t, f₁, e₁) = >>=-eq-ok (scan_from max_blks infos (length infos - 1) 1 start) _ e in
    save_hint-le infos (length infos) (length infos) t s f₁
      (scan_from-le infos (length infos) max_blks (length infos - 1) 1 start t e₁ (omega arith)
        (omega (arith, some_trace)))
      (omega arith)
