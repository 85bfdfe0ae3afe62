-- ===== src/Assign/Params.antt =====
-- nvm_tools-J/helper/replay.c: the second half of assign_params_per_worker (lines 630 to 726), which
-- sorts a worker's traces, groups them into hints and fills its replay_param_t. The hints of all
-- workers stand in one array of `valid_lines` cells, and `hints` is its part that is filled.
pub mod Replayed
pub mod Files
use gogeta_fs_ae.Common.{
  ℕ, zero, suc, ◌+◌, ◌-◌, ◌*◌, Bool, true, false, Option, none, some, List, [], ◌∷◌, ◌++◌, leb,
  length, Result, ok, err, out_of_bounds, ◌>>=◌, if◌then◌else◌,
}
use gogeta_fs_ae.Trace.{TraceInfo, TraceReplayHint}
use gogeta_fs_ae.Container.{TraceContainer, info_at}
use gogeta_fs_ae.Sort.{sort_infomap_by_ts}
use gogeta_fs_ae.Hints.{Scan, extract_hints}
use gogeta_fs_ae.Fill.{RandGener, blk_size}
use gogeta_fs_ae.Worker.{ReplayParam, Mode}

-- The traces that the container holds: its cells below `size`, from cell `i`.
unfoldable pub infos_from : (n i : ℕ) → TraceContainer → Result (List TraceInfo)
infos_from zero i tc = ok []
infos_from (suc n) i tc = do info ← info_at tc i; infos ← infos_from n (suc i) tc; ok (info ∷ infos)

-- What the loop over the workers computes for one of them.
pub record Share : Type 0 where
  pub infos : List TraceInfo
  pub scan : Scan
  pub hints_start : ℕ
  pub hints_end : ℕ

-- The sort and the hints of one worker. Its hints are stored from `length hints` on.
unfoldable pub share_of :
    (max_continuous_4K_blks valid_lines : ℕ)
    → (hints : List TraceReplayHint) → TraceContainer
    → Result Share
share_of max_continuous_4K_blks valid_lines hints tc = do
  cells ← infos_from tc.size 0 tc
  infos ← sort_infomap_by_ts cells
  scan ← extract_hints max_continuous_4K_blks infos
  let hints_end = length hints + length scan.hints
  let share : Share = record {
    infos = infos;
    scan = scan;
    hints_start = length hints;
    hints_end = hints_end;
  }
  if leb hints_end valid_lines then ok share else err out_of_bounds

-- The loop over the workers: their shares, and the array of the hints at its end.
unfoldable pub shares_of :
    (max_continuous_4K_blks valid_lines : ℕ)
    → List TraceReplayHint
    → List TraceContainer
    → Result (List Share × List TraceReplayHint)
shares_of max_continuous_4K_blks valid_lines hints [] = ok ([], hints)
shares_of max_continuous_4K_blks valid_lines hints (tc ∷ tcs) = do
  share ← share_of max_continuous_4K_blks valid_lines hints tc
  rest ← shares_of max_continuous_4K_blks valid_lines (hints ++ share.scan.hints) tcs
  ok ((share ∷ rest.0, rest.1))

-- The parameters of a worker. `malloc` gives the bytes of the memory for a size.
unfoldable pub param_of :
    {Ctx : Type 0}
    → (malloc : ℕ → List ℕ) → Option (RandGener Ctx)
    → Ctx
    → Mode
    → List TraceReplayHint
    → Share
    → ReplayParam Ctx
param_of malloc rand_gener ctx mode hints share = record {
  infos_map = share.infos;
  hints = hints;
  hints_start = share.hints_start;
  hints_end = share.hints_end;
  buf = malloc (share.scan.max_continuous * blk_size);
  rand_gener = rand_gener;
  ctx = ctx;
  mode = mode;
}
