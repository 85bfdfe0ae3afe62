-- ===== src/Hints.antt =====
-- nvm_tools-J/helper/replay.c: the loop of assign_params_per_worker that groups a worker's sorted
-- traces into hints (lines 636 to 676). A hint is a run of traces that one system call replays.
-- `hints` is the part of the array that this worker fills, so `hints_idx - hints_start` is its length.
pub mod Cover
pub mod Size
use gogeta_fs_ae.Common.{
  ℕ, zero, suc, ◌+◌, ◌-◌, ◌%◌, ◌^◌, Bool, true, false, ◌&&◌, List, [], ◌∷◌, ◌++◌, ltb, ◌==◌, length,
  get_elem?, Result, ok, ◌>>=◌, read, if◌then◌else◌,
}
use gogeta_fs_ae.Trace.{TraceInfo, TraceReplayHint}

-- `info->lba - pre->lba`, an unsigned long.
abbrev pub lba_diff : TraceInfo → TraceInfo → ℕ
lba_diff info pre = (info.lba + 2 ^ 64 - pre.lba) % 2 ^ 64

-- The condition under which a trace joins the run before it.
unfoldable pub continues : (max_blks : ℕ) (pre info : TraceInfo) (j consecutive_start : ℕ) → Bool
continues max_blks pre info j consecutive_start =
    lba_diff info pre == 8 && (info.rw == pre.rw && ltb (j - consecutive_start) max_blks)

-- The loop's variables: `hints`, `_max_continuous_4K_blks` and `consecutive_start`.
pub record Scan : Type 0 where
  pub hints : List TraceReplayHint
  pub max_continuous : ℕ
  pub consecutive_start : ℕ

-- Saves the hint of the run from `consecutive_start` up to `j`.
unfoldable pub save_hint : List TraceInfo → ℕ → Scan → Result Scan
save_hint infos j s = do
  first ← read (get_elem? infos s.consecutive_start)
  let blks = j - s.consecutive_start
  ok (record {
    hints =
        s.hints
        ++ record { continuous_blks = blks; start_trace_line = s.consecutive_start; rw = first.rw }
          ∷ [];
    max_continuous = if ltb s.max_continuous blks then blks else s.max_continuous;
    consecutive_start = j;
  })

module _ (max_blks : ℕ) (infos : List TraceInfo) where
  -- `for (j = per_thread_start + 1; j < per_thread_end; j++)`, from `j` with `n` rounds left.
  unfoldable pub scan_from : (n j : ℕ) → Scan → Result Scan
  unfolding continues save_hint
  scan_from zero j s = ok s
  scan_from (suc n) j s = do
    info ← read (get_elem? infos j)
    pre ← read (get_elem? infos (j - 1))
    s' ← if continues max_blks pre info j s.consecutive_start then ok s else save_hint infos j s
    scan_from n (suc j) s'

  -- The loop, and the hint of the last run after it.
  unfoldable pub extract_hints : Result Scan
  unfolding scan_from save_hint
  extract_hints = do
    let start : Scan = record { hints = []; max_continuous = 0; consecutive_start = 0 }
    s ← scan_from (length infos - 1) 1 start
    save_hint infos (length infos) s
