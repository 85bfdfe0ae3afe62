-- ===== src/Tests/Data.antt =====
-- Traces, digests and containers for the tests.
use gogeta_fs_ae.Hints.Cover.{Covers}
use gogeta_fs_ae.Worker.Spec.{AllPlayable}
use gogeta_fs_ae.Common.{refl, inl, arith, ℕ, ◌*◌, List, [], ◌∷◌, replicate, true, none}
use gogeta_fs_ae.Trace.{TraceInfo, TraceReplayHint}
use gogeta_fs_ae.File.{count}
use gogeta_fs_ae.Worker.{Env, ReplayParam, read_write, char_w}

-- A write of one block at time `ts` and sector `lba`, with a digest of 32 characters.
abbrev pub write_of : ℕ → ℕ → ℕ → TraceInfo
write_of ts lba c = record {
  ts = ts;
  pid = 7;
  lba = lba;
  ofs = lba * 512;
  blks = 8;
  rw = char_w;
  major = 6;
  minor = 0;
  md5 = replicate 32 c;
}

abbrev pub read_of : ℕ → ℕ → TraceInfo
read_of ts lba = record (write_of ts lba b'r') { rw = b'R' }

abbrev pub traces : List TraceInfo
traces = write_of 3 8 b'a' ∷ write_of 1 0 b'b' ∷ write_of 3 16 b'c' ∷ []

-- Two adjacent writes, then a read of the second block.
abbrev pub played : List TraceInfo
played = write_of 1 0 b'a' ∷ write_of 2 8 b'b' ∷ read_of 3 8 ∷ []

abbrev pub hint : ℕ → ℕ → ℕ → TraceReplayHint
hint start blks kind = record { continuous_blks = blks; start_trace_line = start; rw = kind }

abbrev pub played_hints : List TraceReplayHint
played_hints = hint 0 2 char_w ∷ hint 2 1 b'R' ∷ []

-- A kernel that transfers all it is asked for.
abbrev pub obliging : Env
obliging = record {
  existing = none;
  can_open = true;
  can_dump = true;
  answers = λ k. count 1000001;
}

abbrev pub played_param : ReplayParam ℕ
played_param = record {
  infos_map = played;
  hints = played_hints;
  hints_start = 0;
  hints_end = 2;
  buf = replicate 8192 0;
  rand_gener = none;
  ctx = 0;
  mode = read_write;
}

pub playable : AllPlayable played
playable = (
  record { digest = inl refl; sector = refl; small = omega arith },
  (
    record { digest = inl refl; sector = refl; small = omega arith },
    (record { digest = inl refl; sector = refl; small = omega arith }, tt),
  ),
)

pub played-Covers : Covers 4 0 played_hints played
played-Covers = (
  refl,
  omega arith,
  omega arith,
  (refl, refl, refl),
  (refl, omega arith, omega arith, refl, refl),
)
