-- ===== src/Worker/Hint.antt =====
-- One hint: the buffer that is filled for it, and the call that writes it.
use gogeta_fs_ae.Common.{
  ℕ, suc, ◌+◌, ◌*◌, ◌%◌, ◌^◌, ◌≤◌, ◌<◌, ◌≡◌, refl, ap, ap₂, sym, ◌∙◌, Bool, Option, List, [], ◌∷◌,
  ◌++◌, append_assoc, append-nil, length, take, drop, read, ok, err, exited, inl, inr, ◌⊎◌, ◌≢◌,
  >>=-ok, arith, length-append, length-take, length-drop, take-append-drop,
}
use gogeta_fs_ae.Trace.{TraceInfo, TraceReplayHint}
use gogeta_fs_ae.Slice.{Holds}
use gogeta_fs_ae.Buffer.{take-prefix}
use gogeta_fs_ae.File.{Answer, count, failed, file_write, pwrite, write_append}
use gogeta_fs_ae.File.Write.{file_write-append, file_write-end, pwrite-all}
use gogeta_fs_ae.Fill.{RandGener, fill_blk}
use gogeta_fs_ae.Fill.Content.{digest_block, Reseeds, length-digest_block, fill_blk-digest_block}
use gogeta_fs_ae.Fill.Block.{cut, regroup}
use gogeta_fs_ae.Hints.Cover.{IsRun}
use gogeta_fs_ae.Worker.{
  Env, WorkerState, ReplayParam, check_ret, finish_hint, fill_hint, write_hint, append_hint,
}
use gogeta_fs_ae.Worker.Spec.{IsPlayable, AllPlayable, blocks, replay_all}

module _ {Ctx : Type 0} (g : Option (RandGener Ctx)) (ctx₀ : Ctx) (reset : Reseeds g) where
  length-block : (x : TraceInfo) → IsPlayable x → length (digest_block g ctx₀ x.md5) ≡ 4096
  length-block x p = length-digest_block g ctx₀ x.md5 p.digest

  pub length-blocks :
      (l : List TraceInfo) → AllPlayable l → length (blocks g ctx₀ l) ≡ length l * 4096
  unfolding blocks
  length-blocks [] h = omega arith
  length-blocks (x ∷ l) h = omega (
    arith,
    length-append (digest_block g ctx₀ x.md5) (blocks g ctx₀ l),
    length-block x h.0,
    length-blocks l h.1,
  )

  -- The blocks of a run, written in one call, are its traces replayed one at a time.
  pub file_write-run :
      (mode : ℕ) (x : TraceInfo) (l : List TraceInfo) (file : List ℕ)
      → IsRun mode (x ∷ l)
      → AllPlayable (x ∷ l)
      → file_write file x.ofs (blocks g ctx₀ (x ∷ l)) ≡ replay_all g ctx₀ file (x ∷ l)
  unfolding blocks replay_all
  file_write-run mode x [] file run h =
      ap (file_write file x.ofs) (append-nil (digest_block g ctx₀ x.md5))
  file_write-run mode x (y ∷ l) file run h =
      let b : List ℕ = digest_block g ctx₀ x.md5 in
      let next : x.ofs + length b ≡ y.ofs =
        omega
          (arith, length-block x h.0, run.1, h.0.sector, h.0.small, h.1.0.sector, h.1.0.small) in
      file_write-append file x.ofs b (blocks g ctx₀ (y ∷ l))
      ∙ ap (λ o. file_write (file_write file x.ofs b) o (blocks g ctx₀ (y ∷ l))) next
      ∙ file_write-run mode y l (file_write file x.ofs b) run.2 h.1

-- A call that returns the hint's size ends well.
finish_hint-ok :
    {Ctx : Type 0} (h : TraceReplayHint) (s : WorkerState Ctx) (buf file : List ℕ) (ctx : Ctx)
    (ret : ℕ) (call : List ℕ × ℕ)
    → call ≡ (file, ret)
    → ret ≡ h.continuous_blks * 4096
    → finish_hint h s (buf, ctx) call
      ≡ ok (record s { file = file; buf = buf; ctx = ctx; calls = suc s.calls })
unfolding finish_hint check_ret
finish_hint-ok h s buf file ctx ret call e size =
    ap (finish_hint h s (buf, ctx)) (e ∙ ap (λ r. (file, r)) size) ∙ ground arith

-- A call that returns anything else ends the program.
finish_hint-short :
    {Ctx : Type 0} (h : TraceReplayHint) (s : WorkerState Ctx) (filled : List ℕ × Ctx)
    (call : List ℕ × ℕ)
    → call.1 % 2 ^ 32 ≢ h.continuous_blks * 4096 % 2 ^ 32
    → finish_hint h s filled call ≡ err (exited 1)
unfolding finish_hint check_ret
finish_hint-short h s filled call ne = ground arith

module _ {Ctx : Type 0} (env : Env) (is_dump_read : Bool) (param : ReplayParam Ctx) (ctx₀ : Ctx)
    (reset : Reseeds param.rand_gener) where
  abbrev run_blocks : List TraceInfo → List ℕ
  run_blocks l = blocks param.rand_gener ctx₀ l

  -- The inner loop fills the buffer with the run's blocks.
  fill_hint-ok :
      (l : List TraceInfo) (j p : ℕ) (pre old post : List ℕ) (ctx : Ctx)
      → Holds param.infos_map j l
      → AllPlayable l
      → p ≡ length pre
      → length old ≡ length l * 4096
      → (ctx' : Ctx) × (fill_hint env is_dump_read param (length l) j p (pre ++ (old ++ post)) ctx
          ≡ ok (pre ++ (run_blocks l ++ post), ctx'))
  unfolding fill_hint blocks
  fill_hint-ok [] j p pre [] post ctx h a at o = (ctx, refl)
  fill_hint-ok [] j p pre (b ∷ old) post ctx h a at o = absurd (omega arith)
  fill_hint-ok (x ∷ l) j p pre old post ctx h a at o =
      let first : List ℕ = take 4096 old in
      let left : List ℕ = drop 4096 old in
      let b : List ℕ = digest_block param.rand_gener ctx₀ x.md5 in
      let (size, (ctx₁, e₁)) =
        fill_blk-digest_block param.rand_gener ctx₀ x.md5 reset a.0.digest ctx pre first
          (left ++ post) (omega (arith, length-take 4096 old)) in
      let (ctx₂, e₂) =
        fill_hint-ok l (suc j) (p + 4096) (pre ++ b) left post ctx₁ h.1 a.1
          (omega (arith, length-append pre b, size)) (omega (arith, length-drop 4096 old)) in
      (
        ctx₂,
        >>=-ok _ (ap read h.0)
            ∙ >>=-ok _ (
                ap₂ (λ buf q. fill_blk param.rand_gener ctx buf q x.md5) (cut 4096 pre old post) at
                ∙ e₁)
            ∙ ap (λ buf. fill_hint env is_dump_read param (length l) (suc j) (p + 4096) buf ctx₁)
                (sym (append_assoc pre b (left ++ post)))
            ∙ e₂
            ∙ ap (λ buf. ok (buf, ctx₂)) (regroup pre b (run_blocks l) post),
      )

  -- The same for a whole buffer.
  fill_hint-buffer :
      (h : TraceReplayHint) (buf : List ℕ) (ctx : Ctx) (l : List TraceInfo)
      → Holds param.infos_map h.start_trace_line l
      → AllPlayable l
      → h.continuous_blks ≡ length l
      → length l * 4096 ≤ length buf
      → (buf' : List ℕ) × (ctx' : Ctx) × (fill_hint env is_dump_read param h.continuous_blks
            h.start_trace_line 0 buf ctx
          ≡ ok (buf', ctx'))
        × (take (h.continuous_blks * 4096) buf' ≡ run_blocks l)
        × (length buf' ≡ length buf)
  fill_hint-buffer h buf ctx l slice a k room =
      let size : ℕ = length l * 4096 in
      let old : List ℕ = take size buf in
      let post : List ℕ = drop size buf in
      let written = length-blocks param.rand_gener ctx₀ reset l a in
      let (ctx', e) =
        fill_hint-ok l h.start_trace_line 0 [] old post ctx slice a refl
          (omega (arith, length-take size buf)) in
      (
        run_blocks l ++ post,
        ctx',
        ap₂ (λ n b. fill_hint env is_dump_read param n h.start_trace_line 0 b ctx) k
              (sym (take-append-drop size buf))
            ∙ e,
        ap (λ n. take n (run_blocks l ++ post)) (ap (λ n. n * 4096) k ∙ sym written)
            ∙ take-prefix (run_blocks l) post,
        omega (arith, length-append (run_blocks l) post, length-drop size buf, written),
      )

  module _ (h : TraceReplayHint) (s : WorkerState Ctx) (x : TraceInfo) (l : List TraceInfo) (n : ℕ)
      (slice : Holds param.infos_map h.start_trace_line (x ∷ l)) (a : AllPlayable (x ∷ l))
      (k : h.continuous_blks ≡ length (x ∷ l)) (room : length (x ∷ l) * 4096 ≤ length s.buf)
      (answer : env.answers s.calls ≡ count n) (complete : length s.buf ≤ n) where
    -- The hint of a run is written as its traces one at a time.
    pub write_hint-ok :
        (mode : ℕ)
        → IsRun mode (x ∷ l)
        → (s' : WorkerState Ctx) × (write_hint env is_dump_read param h s ≡ ok s')
          × (s'.file ≡ replay_all param.rand_gener ctx₀ s.file (x ∷ l))
          × (length s'.buf ≡ length s.buf)
    unfolding write_hint
    write_hint-ok mode run =
        let (buf', ctx', e, part, size) = fill_hint-buffer h s.buf s.ctx (x ∷ l) slice a k room in
        let written = length-blocks param.rand_gener ctx₀ reset (x ∷ l) a in
        let bytes : List ℕ = run_blocks (x ∷ l) in
        let call =
          ap₂ (λ o b. pwrite o s.file b x.ofs) answer part
          ∙ pwrite-all n s.file bytes x.ofs (omega (arith, written)) in
        (
          record s {
            file = file_write s.file x.ofs bytes;
            buf = buf';
            ctx = ctx';
            calls = suc s.calls;
          },
          >>=-ok _ e
              ∙ >>=-ok _ (ap read slice.0)
              ∙ finish_hint-ok h s buf' (file_write s.file x.ofs bytes) ctx' (length bytes) _ call
                  (written ∙ ap (λ m. m * 4096) (sym k)),
          file_write-run param.rand_gener ctx₀ reset mode x l s.file run a,
          size,
        )

    -- The same in append mode: the blocks go behind the file's end.
    pub append_hint-ok :
        (s' : WorkerState Ctx) × (append_hint env is_dump_read param h s ≡ ok s')
        × (s'.file ≡ s.file ++ run_blocks (x ∷ l))
        × (length s'.buf ≡ length s.buf)
    unfolding append_hint write_append
    append_hint-ok =
        let (buf', ctx', e, part, size) = fill_hint-buffer h s.buf s.ctx (x ∷ l) slice a k room in
        let written = length-blocks param.rand_gener ctx₀ reset (x ∷ l) a in
        let bytes : List ℕ = run_blocks (x ∷ l) in
        let call =
          ap₂ (λ o b. pwrite o s.file b (length s.file)) answer part
          ∙ pwrite-all n s.file bytes (length s.file) (omega (arith, written)) in
        (
          record s {
            file = file_write s.file (length s.file) bytes;
            buf = buf';
            ctx = ctx';
            calls = suc s.calls;
          },
          >>=-ok _ e
              ∙ finish_hint-ok h s buf' (file_write s.file (length s.file) bytes) ctx'
                  (length bytes) _ call (written ∙ ap (λ m. m * 4096) (sym k)),
          file_write-end s.file bytes,
          size,
        )

  -- What write and pwrite return for a hint of fewer than 2 ^ 20 blocks, if they fail or fall short.
  short-return :
      (h : TraceReplayHint) (answer : Answer) (file bytes : List ℕ) (ofs : ℕ)
      → length bytes ≡ h.continuous_blks * 4096
      → h.continuous_blks < 2 ^ 20
      → (answer ≡ failed) ⊎ ((n : ℕ) × (answer ≡ count n) × (n < h.continuous_blks * 4096))
      → (pwrite answer file bytes ofs).1 % 2 ^ 32 ≢ h.continuous_blks * 4096 % 2 ^ 32
  unfolding pwrite
  short-return h answer file bytes ofs sent small (inl fails) =
      let ret = ap (λ o. (pwrite o file bytes ofs).1) fails in λ same. omega (arith, ret, same)
  short-return h answer file bytes ofs sent small (inr (n, less, few)) =
      let ret = ap (λ o. (pwrite o file bytes ofs).1) less in λ same. omega (arith, ret, same, sent)

  -- A hint of a run of playable traces, at least one and fewer than 2 ^ 20, for which the buffer has room
  -- and with a generator that seeding resets: a pwrite of write_hint, or a write of append_hint, that
  -- transfers less than the hint's blocks, or fails, ends the program with 1.
  pub hint-short :
      (h : TraceReplayHint) (s : WorkerState Ctx) (x : TraceInfo) (l : List TraceInfo)
      → Holds param.infos_map h.start_trace_line (x ∷ l)
      → AllPlayable (x ∷ l)
      → h.continuous_blks ≡ length (x ∷ l)
      → length (x ∷ l) * 4096 ≤ length s.buf
      → h.continuous_blks < 2 ^ 20
      → (env.answers s.calls ≡ failed)
        ⊎ ((n : ℕ) × (env.answers s.calls ≡ count n) × (n < h.continuous_blks * 4096))
      → (write_hint env is_dump_read param h s ≡ err (exited 1))
        × (append_hint env is_dump_read param h s ≡ err (exited 1))
  unfolding write_hint append_hint write_append
  hint-short h s x l slice a k room small bad =
      let (buf', ctx', e, part, size) = fill_hint-buffer h s.buf s.ctx (x ∷ l) slice a k room in
      let written = length-blocks param.rand_gener ctx₀ reset (x ∷ l) a in
      let bytes : List ℕ = take (h.continuous_blks * 4096) buf' in
      let sent : length bytes ≡ h.continuous_blks * 4096 =
        ap length part ∙ written ∙ ap (λ m. m * 4096) (sym k) in
      let answer = env.answers s.calls in
      let short = λ (ofs : ℕ). short-return h answer s.file bytes ofs sent small bad in
      (
        >>=-ok _ e
            ∙ >>=-ok _ (ap read slice.0)
            ∙ finish_hint-short h s (buf', ctx') (pwrite answer s.file bytes x.ofs) (short x.ofs),
        >>=-ok _ e
            ∙ finish_hint-short h s (buf', ctx') (pwrite answer s.file bytes (length s.file))
                (short (length s.file)),
      )
