-- ===== src/Trace.antt =====
-- nvm_tools-J/helper/replay.c: struct trace_info, struct trace_replay_hint and the modes.
use gogeta_fs_ae.Common.{ℕ, List}

-- One line of a trace. `pid` is a union with `fid`; `rw` is the character; `md5` the bytes of the
-- string before its NUL.
pub record TraceInfo : Type 0 where
  pub ts : ℕ
  pub pid : ℕ
  pub lba : ℕ
  pub ofs : ℕ
  pub blks : ℕ
  pub rw : ℕ
  pub major : ℕ
  pub minor : ℕ
  pub md5 : List ℕ

pub record TraceReplayHint : Type 0 where
  pub continuous_blks : ℕ
  pub start_trace_line : ℕ
  pub rw : ℕ
