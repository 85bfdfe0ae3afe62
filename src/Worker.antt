-- ===== src/Worker.antt =====
-- nvm_tools-J/helper/replay.c: check_ret and replay_worker, the thread that replays one worker's
-- hints on its own file. The descriptor is the file's content, `calls` counts the system calls made,
-- and `dump` is the content of the dump file.
pub mod Spec
pub mod Reads
pub mod Hint
pub mod Replays
use gogeta_fs_ae.Common.{
  ℕ, zero, suc, ◌+◌, ◌-◌, ◌*◌, ◌%◌, ◌^◌, Bool, true, false, ◌&&◌, not, Option, none, some, List, [],
  ◌∷◌, ◌++◌, ◌==◌, length, get_elem?, take, drop, replicate, Result, ok, err, out_of_bounds,
  out_of_fuel, exited, ◌>>=◌, ◌>>◌, read, if◌then◌else◌,
}
use gogeta_fs_ae.Trace.{TraceInfo, TraceReplayHint}
use gogeta_fs_ae.Buffer.{write_bytes}
use gogeta_fs_ae.Fill.{RandGener, blk_size, fill_blk}
use gogeta_fs_ae.File.{Answer, pwrite, write_append, pread}

-- REPLAY_WRITEONLY, REPLAY_READWRITE, REPLAY_APPEND
pub data Mode : Type 0 where
  write_only read_write append : Mode

-- What the system does: the file that access() finds, whether open and fopen succeed, and the
-- answer to each further call.
pub record Env : Type 0 where
  pub existing : Option (List ℕ)
  pub can_open : Bool
  pub can_dump : Bool
  pub answers : ℕ → Answer

-- `ret == expected`, both passed as int.
unfoldable pub check_ret : ℕ → ℕ → Result (Unit {0})
check_ret ret expected = if ret % 2 ^ 32 == expected % 2 ^ 32 then ok tt else err (exited 1)

pub record WorkerState (Ctx : Type 0) : Type 0 where
  pub file : List ℕ
  pub buf : List ℕ
  pub ctx : Ctx
  pub dump : List ℕ
  pub calls : ℕ

-- replay_param_t, as far as the worker reads it; `infos_map` holds the traces below `tc->size`.
pub record ReplayParam (Ctx : Type 0) : Type 0 where
  pub infos_map : List TraceInfo
  pub hints : List TraceReplayHint
  pub hints_start : ℕ
  pub hints_end : ℕ
  pub buf : List ℕ
  pub rand_gener : Option (RandGener Ctx)
  pub ctx : Ctx
  pub mode : Mode

-- The file as the worker opens it: an existing one is kept, any other is created empty.
unfoldable pub opened : Option (List ℕ) → List ℕ
opened (some file) = file
opened none = []

-- After the call of a hint: `filled` is the buffer and the generator's state, `call` the file after
-- the call and what it returned.
unfoldable pub finish_hint :
    {Ctx : Type 0}
    → TraceReplayHint
    → WorkerState Ctx
    → (filled : List ℕ × Ctx) (call : List ℕ × ℕ) → Result (WorkerState Ctx)
finish_hint h s filled call = do
  check_ret call.1 (h.continuous_blks * blk_size)
  ok (record s { file = call.0; buf = filled.0; ctx = filled.1; calls = suc s.calls })

abbrev pub char_w : ℕ
char_w = b'W'

module _ {Ctx : Type 0} (env : Env) (is_dump_read : Bool) (param : ReplayParam Ctx) where
  -- `for (j = hint->start_trace_line; j < end_trace_line; j++)`, `n` rounds left, `p` into the buffer.
  unfoldable pub fill_hint : (n j p : ℕ) → List ℕ → Ctx → Result (List ℕ × Ctx)
  fill_hint zero j p buf ctx = ok (buf, ctx)
  fill_hint (suc n) j p buf ctx = do
    info ← read (get_elem? param.infos_map j)
    done ← fill_blk param.rand_gener ctx buf p info.md5
    fill_hint n (suc j) (p + blk_size) done.0 done.1

  -- A call that writes the first `continuous_blks << BLK_SHIFT` bytes of the buffer.
  unfoldable pub write_hint : TraceReplayHint → WorkerState Ctx → Result (WorkerState Ctx)
  write_hint h s = do
    done ← fill_hint h.continuous_blks h.start_trace_line 0 s.buf s.ctx
    first ← read (get_elem? param.infos_map h.start_trace_line)
    let bytes = take (h.continuous_blks * blk_size) done.0
    finish_hint h s done (pwrite (env.answers s.calls) s.file bytes first.ofs)

  unfoldable pub append_hint : TraceReplayHint → WorkerState Ctx → Result (WorkerState Ctx)
  append_hint h s = do
    done ← fill_hint h.continuous_blks h.start_trace_line 0 s.buf s.ctx
    let bytes = take (h.continuous_blks * blk_size) done.0
    finish_hint h s done (write_append (env.answers s.calls) s.file bytes)

  -- `while (done != blk_size)`: the buffer, `done` and the number of calls at its end.
  unfoldable pub read_loop :
      ℕ → List ℕ → (ofs size done calls : ℕ) → List ℕ → Result (List ℕ × ℕ × ℕ)
  read_loop zero file ofs size done calls buf = err out_of_fuel
  read_loop (suc f) file ofs size done calls buf = elim (done == size) [
    | true ↦ ok (buf, done, calls)
    | false ↦ elim (pread (env.answers calls) file (size - done) (ofs + done)) [
      | none ↦ err (exited 1)
      | some [] ↦ ok (buf, done, suc calls)
      | some (b ∷ bytes) ↦ do
        buf' ← write_bytes buf done (b ∷ bytes)
        read_loop f file ofs size (done + length (b ∷ bytes)) (suc calls) buf'
    ]
  ]

  -- pread until the hint is read, zeros for what the file does not have, and the dump.
  unfoldable pub read_hint : TraceReplayHint → WorkerState Ctx → Result (WorkerState Ctx)
  read_hint h s = do
    first ← read (get_elem? param.infos_map h.start_trace_line)
    let size = h.continuous_blks * blk_size
    (buf, done, calls) ← read_loop (suc size) s.file first.ofs size 0 s.calls s.buf
    buf' ← write_bytes buf done (replicate (size - done) 0)
    ok (record s {
      buf = buf';
      calls = calls;
      dump = if is_dump_read then s.dump ++ take size buf' else s.dump;
    })

  unfoldable pub replay_hint : Mode → TraceReplayHint → WorkerState Ctx → Result (WorkerState Ctx)
  replay_hint write_only h s = write_hint h s
  replay_hint append h s = append_hint h s
  replay_hint read_write h s = elim (h.rw == char_w) [
    | true ↦ write_hint h s
    | false ↦ read_hint h s
  ]

  -- `for (i = hints_start; i < hints_end; i++)`, `n` rounds left.
  unfoldable pub replay_from : (n i : ℕ) → WorkerState Ctx → Result (WorkerState Ctx)
  replay_from zero i s = ok s
  replay_from (suc n) i s = do
    h ← read (get_elem? param.hints i)
    s' ← replay_hint param.mode h s
    replay_from n (suc i) s'

  unfoldable pub replay_worker : Result (WorkerState Ctx)
  replay_worker =
      if is_dump_read && not env.can_dump
      then err (exited 1)
      else (if not env.can_open
          then err (exited 1)
          else replay_from (param.hints_end - param.hints_start) param.hints_start (record {
            file = opened env.existing;
            buf = param.buf;
            ctx = param.ctx;
            dump = [];
            calls = 0;
          }))
