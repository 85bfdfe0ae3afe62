-- ===== src/Parse/Traces.antt =====
-- What parse_trace_info makes of a file: the traces that the mode replays, inside its array.
use gogeta_fs_ae.Common.{
  ℕ, suc, ◌+◌, ◌*◌, ◌%◌, ◌^◌, ◌≡◌, ◌≤◌, inl, inr, refl, ap, ap₂, sym, ◌∙◌, Bool, true, false, ◌&&◌,
  Option, some, List, [], ◌∷◌, ◌++◌, append_assoc, ◌==◌, length, length-append, get_elem?-append,
  set-append, take, ok, >>=-ok, read, if◌then◌else◌, Bool-cases, arith,
}
use gogeta_fs_ae.Trace.{TraceInfo}
use gogeta_fs_ae.Worker.{Mode, write_only, read_write, append, char_w}
use gogeta_fs_ae.Parse.{
  TraceFormat, fiu, hitsz, Scanner, strip_last, set_ofs, is_replayed, parse_line, parse_lines,
  parse_trace_info,
}

-- fgets stores at least one character.
abbrev pub AllNonempty : List (List ℕ) → Type 0
AllNonempty [] = Unit
AllNonempty (line ∷ lines) = (1 ≤ length line) × AllNonempty lines

-- A trace that counts: its byte offset is that of its sector, and the mode replays it.
pub record IsTrace (mode : Mode) (x : TraceInfo) : Type 0 where
  pub offset : x.ofs ≡ x.lba * 512 % 2 ^ 64
  pub replays : is_replayed mode x ≡ true

abbrev pub AllTraces : Mode → List TraceInfo → Type 0
AllTraces mode [] = Unit
AllTraces mode (x ∷ l) = IsTrace mode x × AllTraces mode l

AllTraces-snoc :
    (mode : Mode) (l : List TraceInfo) (x : TraceInfo)
    → AllTraces mode l
    → IsTrace mode x
    → AllTraces mode (l ++ x ∷ [])
AllTraces-snoc mode [] x a t = (t, tt)
AllTraces-snoc mode (y ∷ l) x a t = (a.0, AllTraces-snoc mode l x a.1 t)

set_ofs-replayed : (mode : Mode) (x : TraceInfo) → is_replayed mode (set_ofs x) ≡ is_replayed mode x
unfolding is_replayed set_ofs
set_ofs-replayed write_only x = refl
set_ofs-replayed read_write x = refl
set_ofs-replayed append x = refl

set_ofs-IsTrace :
    (mode : Mode) (x : TraceInfo) → is_replayed mode x ≡ true → IsTrace mode (set_ofs x)
unfolding set_ofs
set_ofs-IsTrace mode x h = record { offset = refl; replays = set_ofs-replayed mode x ∙ h }

write-replayed : (mode : Mode) (x : TraceInfo) → x.rw ≡ char_w → is_replayed mode x ≡ true
unfolding is_replayed
write-replayed write_only x e = ground (arith, e)
write-replayed read_write x e = refl
write-replayed append x e = ground (arith, e)

abbrev picked : Bool → TraceInfo → TraceInfo → TraceInfo × Bool
picked b s t = if b then (t, true) else (s, false)

-- The branches of a scan: `b` is its test, `s` what it stores and `t` the trace that counts.
pick-IsTrace :
    (mode : Mode) (b : Bool) (s t : TraceInfo)
    → (b ≡ true → IsTrace mode t)
    → (picked b s t).1 ≡ true
    → IsTrace mode (picked b s t).0
pick-IsTrace mode true s t h e = h refl
pick-IsTrace mode false s t h e = absurd (ground (arith, e))

module _ (sscanf : Scanner) (format : TraceFormat) (mode : Mode) where
  parse_line-IsTrace :
      (format : TraceFormat) (line : List ℕ) (old : TraceInfo)
      → (parse_line sscanf format mode line old).1 ≡ true
      → IsTrace mode (parse_line sscanf format mode line old).0
  unfolding parse_line
  parse_line-IsTrace fiu line old =
      let scanned = sscanf.scan_fiu line old in
      pick-IsTrace mode (scanned.1 == 9 && is_replayed mode scanned.0) scanned.0 (set_ofs scanned.0)
        (λ h. set_ofs-IsTrace mode scanned.0 (ground arith))
  parse_line-IsTrace hitsz line old =
      let scanned = sscanf.scan_hitsz line old in
      let write : TraceInfo = record scanned.0 { rw = char_w; blks = 8 } in
      pick-IsTrace mode (scanned.1 == 4) scanned.0 (set_ofs write)
        (λ h. set_ofs-IsTrace mode write (write-replayed mode write refl))

  -- The traces of a file, line by line: a line counts, with the cell `old` that its trace was stored
  -- in, or it does not.
  pub data Reads : List (List ℕ) → List TraceInfo → Type 0 where
    at_end : Reads [] []
    counts :
        (line stripped : List ℕ) (old : TraceInfo) {lines : List (List ℕ)} {l : List TraceInfo}
        → strip_last line ≡ ok stripped
        → (parse_line sscanf format mode stripped old).1 ≡ true
        → Reads lines l
        → Reads (line ∷ lines) ((parse_line sscanf format mode stripped old).0 ∷ l)
    skips :
        (line stripped : List ℕ) (old : TraceInfo) {lines : List (List ℕ)} {l : List TraceInfo}
        → strip_last line ≡ ok stripped
        → (parse_line sscanf format mode stripped old).1 ≡ false
        → Reads lines l
        → Reads (line ∷ lines) l

  -- What the second pass leaves, from `done`: the traces of `lines` behind it, then the other cells.
  record Parsed (lines : List (List ℕ)) (infos : List TraceInfo) (done : List TraceInfo)
      : Type 0 where
    new : List TraceInfo
    other : List TraceInfo
    ends :
        parse_lines sscanf format mode lines (length done) infos
        ≡ ok (done ++ (new ++ other), length done + length new)
    reads : Reads lines new
    traces : AllTraces mode new
    fits : length new + length other + length done ≡ length infos

  strip_last-ok : (line : List ℕ) → 1 ≤ length line → (s : List ℕ) × (strip_last line ≡ ok s)
  unfolding strip_last
  strip_last-ok [] h = absurd (omega arith)
  strip_last-ok (c ∷ line) h = (take (length line) (c ∷ line), refl)

  -- One round of the second pass.
  parse_lines-line :
      (line : List ℕ) (lines : List (List ℕ)) (done rest : List TraceInfo) (stripped : List ℕ)
      (old : TraceInfo)
      → strip_last line ≡ ok stripped
      → parse_lines sscanf format mode (line ∷ lines) (length done) (done ++ old ∷ rest)
        ≡ parse_lines sscanf format mode lines
            (if (parse_line sscanf format mode stripped old).1
              then suc (length done)
              else length done)
            (done ++ (parse_line sscanf format mode stripped old).0 ∷ rest)
  unfolding parse_lines
  parse_lines-line line lines done rest stripped old e =
      let parsed = parse_line sscanf format mode stripped old in
      >>=-ok _ (ap read (get_elem?-append done rest old))
      ∙ >>=-ok _ e
      ∙ ap
          (parse_lines sscanf format mode lines
            (if parsed.1 then suc (length done) else length done))
          (set-append done rest old parsed.0)

  parse_lines-Parsed :
      (lines : List (List ℕ)) (done rest : List TraceInfo)
      → AllNonempty lines
      → length lines ≤ length rest
      → Parsed lines (done ++ rest) done
  unfolding parse_lines
  parse_lines-Parsed [] done rest full room = record {
    new = [];
    other = rest;
    ends = ap (λ n. ok (done ++ rest, n)) (omega arith);
    reads = at_end;
    traces = tt;
    fits = omega (arith, length-append done rest);
  }
  parse_lines-Parsed (line ∷ lines) done [] full room = absurd (omega arith)
  parse_lines-Parsed (line ∷ lines) done (old ∷ rest) full room =
      let (stripped, e) = strip_last-ok line full.0 in
      let x = (parse_line sscanf format mode stripped old).0 in
      elim (Bool-cases (parse_line sscanf format mode stripped old).1) [
        | inl yes_counts ↦
            let v = parse_lines-Parsed lines (done ++ x ∷ []) rest full.1 (omega (arith, room)) in
            let size = length-append done (x ∷ []) in
            record {
              new = x ∷ v.new;
              other = v.other;
              ends =
                  parse_lines-line line lines done rest stripped old e
                  ∙ ap₂ (parse_lines sscanf format mode lines)
                      (ap (λ b. if b then suc (length done) else length done) yes_counts
                        ∙ omega (arith, size))
                      (sym (append_assoc done (x ∷ []) rest))
                  ∙ v.ends
                  ∙ ap₂ (λ l n. ok (l, n)) (append_assoc done (x ∷ []) (v.new ++ v.other))
                      (omega (arith, size));
              reads = counts line stripped old e yes_counts v.reads;
              traces = (parse_line-IsTrace format stripped old yes_counts, v.traces);
              fits = omega (
                arith,
                v.fits,
                size,
                length-append done (old ∷ rest),
                length-append (done ++ x ∷ []) rest,
              );
            }
        | inr no_counts ↦
            let v = parse_lines-Parsed lines done (x ∷ rest) full.1 (omega (arith, room)) in
            record {
              new = v.new;
              other = v.other;
              ends =
                  parse_lines-line line lines done rest stripped old e
                  ∙ ap
                      (λ b.
                        parse_lines sscanf format mode lines
                          (if b then suc (length done) else length done) (done ++ x ∷ rest))
                      no_counts
                  ∙ v.ends;
              reads = skips line stripped old e no_counts v.reads;
              traces = v.traces;
              fits =
                  omega
                    (arith, v.fits, length-append done (old ∷ rest), length-append done (x ∷ rest));
            }
      ]

  -- If malloc finds memory and every line has a character, parse_trace_info succeeds inside its
  -- array. The first valid_lines cells are the traces of the lines that count, in their order: the
  -- lines with all fields of the format that the mode replays. Each has the byte offset of its sector.
  pub parse_trace_info-Reads :
      (malloc : ℕ → Option (List TraceInfo)) (lines : List (List ℕ)) (cells : List TraceInfo)
      → AllNonempty lines
      → malloc (length lines) ≡ some cells
      → length cells ≡ length lines
      → (infos : List TraceInfo) × (other : List TraceInfo) × (parse_trace_info sscanf malloc format
            mode lines
          ≡ ok (infos ++ other, length infos))
        × Reads lines infos
        × AllTraces mode infos
        × (length infos ≤ length lines)
  unfolding parse_trace_info
  parse_trace_info-Reads malloc lines cells full mem size =
      let v = parse_lines-Parsed lines [] cells full (omega (arith, size)) in
      (
        v.new,
        v.other,
        parses ∙ v.ends ∙ ap (λ n. ok (v.new ++ v.other, n)) (omega arith),
        v.reads,
        v.traces,
        omega (arith, v.fits, size),
      )
    where
      parses :
          parse_trace_info sscanf malloc format mode lines
          ≡ parse_lines sscanf format mode lines 0 cells
      parses = rw (parse_trace_info, mem)
