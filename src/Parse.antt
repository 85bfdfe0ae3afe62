-- ===== src/Parse.antt =====
-- nvm_tools-J/helper/replay.c: parse_trace_info. A line is what fgets stores before its NUL, and
-- sscanf is a parameter: the number of fields that it assigns, and the trace with these assigned.
-- `infos` is the array that malloc gives, with one cell for each line.
pub mod Traces
use gogeta_fs_ae.Common.{
  ℕ, zero, suc, ◌+◌, ◌-◌, ◌*◌, ◌%◌, ◌^◌, Bool, true, false, ◌&&◌, ◌||◌, Option, none, some, List,
  [], ◌∷◌, ◌==◌, length, get_elem?, set, take, Result, ok, err, out_of_bounds, exited, ◌>>=◌, read,
  if◌then◌else◌,
}
use gogeta_fs_ae.Trace.{TraceInfo}
use gogeta_fs_ae.Worker.{Mode, write_only, read_write, append, char_w}

-- REPLAY_FIU, REPLAY_HITSZ
pub data TraceFormat : Type 0 where
  fiu hitsz : TraceFormat

-- sscanf with the format of each kind of trace.
pub record Scanner : Type 0 where
  pub scan_fiu : List ℕ → TraceInfo → TraceInfo × ℕ
  pub scan_hitsz : List ℕ → TraceInfo → TraceInfo × ℕ

-- `line[strlen(line) - 1] = '\0'`
unfoldable pub strip_last : List ℕ → Result (List ℕ)
strip_last [] = err out_of_bounds
strip_last (c ∷ line) = ok (take (length line) (c ∷ line))

-- `info->ofs = info->lba << 9`
unfoldable pub set_ofs : TraceInfo → TraceInfo
set_ofs info = record info { ofs = info.lba * 2 ^ 9 % 2 ^ 64 }

-- Whether a mode replays a trace of this kind.
unfoldable pub is_replayed : Mode → TraceInfo → Bool
is_replayed read_write info = true
is_replayed write_only info = info.rw == char_w
is_replayed append info = info.rw == char_w

module _ (sscanf : Scanner) where
  -- The body of the loop: the cell after it, and whether the line counts.
  unfoldable pub parse_line : TraceFormat → Mode → List ℕ → TraceInfo → TraceInfo × Bool
  parse_line fiu mode line info =
      let scanned = sscanf.scan_fiu line info in
      if scanned.1 == 9 && is_replayed mode scanned.0
      then (set_ofs scanned.0, true)
      else (scanned.0, false)
  parse_line hitsz mode line info =
      let scanned = sscanf.scan_hitsz line info in
      if scanned.1 == 4
      then (set_ofs (record scanned.0 { rw = char_w; blks = 8 }), true)
      else (scanned.0, false)

  -- The second pass over the lines: `i` is `valid_lines` too.
  unfoldable pub parse_lines :
      TraceFormat → Mode → List (List ℕ) → (i : ℕ) → List TraceInfo → Result (List TraceInfo × ℕ)
  parse_lines format mode [] i infos = ok (infos, i)
  parse_lines format mode (line ∷ lines) i infos = do
    info ← read (get_elem? infos i)
    stripped ← strip_last line
    let parsed = parse_line format mode stripped info
    parse_lines format mode lines (if parsed.1 then suc i else i) (set infos i parsed.0)

  -- Both passes; malloc gives the cells that the memory had, or NULL.
  unfoldable pub parse_trace_info :
      (ℕ → Option (List TraceInfo))
      → TraceFormat
      → Mode
      → List (List ℕ)
      → Result (List TraceInfo × ℕ)
  parse_trace_info malloc format mode lines = elim (malloc (length lines)) [
    | none ↦ err (exited 1)
    | some infos ↦ parse_lines format mode lines 0 infos
  ]
