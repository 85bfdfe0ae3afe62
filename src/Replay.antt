-- ===== src/Replay.antt =====
-- nvm_tools-J/helper/replay.c: main behind its options. The trace is parsed, its sectors are gathered
-- and handed out, and each worker replays its part. The workers share nothing but the hints' array,
-- which they only read, and each has a file of its own, so they stand here one after the other; an
-- exit of one ends the program. malloc finds memory for the hints and the parameters.
pub mod Parts
pub mod Files
use gogeta_fs_ae.Common.{ℕ, suc, Bool, Option, List, [], ◌∷◌, take, Result, ok, ◌>>=◌}
use gogeta_fs_ae.Trace.{TraceInfo, TraceReplayHint}
use gogeta_fs_ae.Fill.{RandGener}
use gogeta_fs_ae.HashMap.{HashMap}
use gogeta_fs_ae.Parse.{Scanner, parse_trace_info}
use gogeta_fs_ae.Gather.{build_trace_containers}
use gogeta_fs_ae.Random.{Mt19937ar, Ctx, gener_of}
use gogeta_fs_ae.Options.{Config}
use gogeta_fs_ae.Worker.{Env, WorkerState, Mode, replay_worker}
use gogeta_fs_ae.Assign.Params.{Share, shares_of, param_of}
use gogeta_fs_ae.Assign.Sorted.{share_map}

module _ {Ctx : Type 0} (malloc : ℕ → List ℕ) (envs : ℕ → Env) (rand_gener : Option (RandGener Ctx))
    (ctx : Ctx) (mode : Mode) (is_dump_read : Bool) (hints : List TraceReplayHint) where
  -- The threads from worker `i` on: the states that they end in.
  unfoldable pub replay_workers : (i : ℕ) → List Share → Result (List (WorkerState Ctx))
  replay_workers i [] = ok []
  replay_workers i (share ∷ shares) = do
    s ← replay_worker (envs i) is_dump_read (param_of malloc rand_gener ctx mode hints share)
    rest ← replay_workers (suc i) shares
    ok (s ∷ rest)

-- What the program calls and does not implement.
pub record Library : Type 1 where
  pub sscanf : Scanner
  pub malloc_infos : ℕ → Option (List TraceInfo)
  pub realloc : ℕ → Bool
  pub malloc : ℕ → List ℕ
  pub rand : ℕ → ℕ
  pub rand_r : ℕ → ℕ × ℕ
  pub mt : Mt19937ar
  pub hm : HashMap
  pub envs : ℕ → Env

module _ (lib : Library) (c : Config) where
  -- What `ctx` of a worker points to.
  abbrev pub Context : Type 0
  Context = Ctx lib.mt lib.rand_r c.rand_gener_type

  unfoldable pub replay : Context → (lines : List (List ℕ)) → Result (List (WorkerState Context))
  replay ctx lines = do
    (cells, valid_lines) ←
        parse_trace_info lib.sscanf lib.malloc_infos c.trace_format_type c.mode lines
    let infos = take valid_lines cells
    (map, heap) ← build_trace_containers lib.realloc lib.hm lib.hm.hashmap_create [] infos
    shared ← share_map lib.realloc lib.rand lib.hm c.threads valid_lines map heap
    (shares, hints) ← shares_of c.max_continuous_4K_blks valid_lines [] shared.tcs
    replay_workers lib.malloc lib.envs (gener_of lib.mt lib.rand_r c.rand_gener_type) ctx c.mode
        c.is_dump_read hints 0 shares
