-- ===== src/Worker/Reads.antt =====
-- A hint that is read: short reads are continued, and the end of the file is filled with zeros.
use gogeta_fs_ae.Common.{
  ℕ, zero, suc, ◌+◌, ◌-◌, ◌*◌, ◌≤◌, ◌<◌, ◌≡◌, refl, ap, ap₂, sym, ◌∙◌, Bool, some, List, [], ◌∷◌,
  ◌++◌, length, take, drop, replicate, get_elem?, read, ok, >>=-ok, arith, length-take, length-drop,
  length-replicate, take-take-drop, take-own_length, if◌then◌else◌, inl, inr, min, ◌⊎◌, ◌≢◌,
  ℕ_discrete,
}
use gogeta_fs_ae.Trace.{TraceInfo, TraceReplayHint}
use gogeta_fs_ae.Buffer.{write_bytes, patch, write_bytes-fits, length-patch, take-patch}
use gogeta_fs_ae.File.{Answer, count, pread}
use gogeta_fs_ae.File.Write.{drop-drop}
use gogeta_fs_ae.Worker.{Env, WorkerState, ReplayParam, read_loop, read_hint}

-- The first `size` bytes of `l`, zeros behind its end.
abbrev pub zero_filled : List ℕ → ℕ → List ℕ
zero_filled l size = take size l ++ replicate (size - length l) 0

-- Each answer transfers a byte at least.
abbrev pub Progresses : Env → Type 0
Progresses env = (k : ℕ) → (n : ℕ) × (env.answers k ≡ count (suc n))

List-cases : (l : List ℕ) → (l ≡ []) ⊎ ((b : ℕ) × (r : List ℕ) × (l ≡ b ∷ r))
List-cases [] = inl refl
List-cases (b ∷ r) = inr (b, r, refl)

pread-count :
    (answer : Answer) (n : ℕ) (file : List ℕ) (size ofs : ℕ) (rest : List ℕ)
    → answer ≡ count (suc n)
    → rest ≡ drop ofs file
    → pread answer file size ofs ≡ some (take (min (suc n) size) rest)
unfolding pread
pread-count answer n file size ofs rest e r =
    ap (λ a. pread a file size ofs) e ∙ ap (λ l. some (take (min (suc n) size) l)) (sym r)

module _ {Ctx : Type 0} (env : Env) (is_dump_read : Bool) (param : ReplayParam Ctx)
    (alive : Progresses env) where
  -- What the loop has read when it ends.
  record HasRead (file : List ℕ) (ofs size : ℕ) (buf : List ℕ) (out : List ℕ × ℕ × ℕ) : Type 0 where
    reached : out.1 ≡ min size (length (drop ofs file))
    bytes : take out.1 out.0 ≡ take out.1 (drop ofs file)
    same : length out.0 ≡ length buf

  module _ (f : ℕ) (file : List ℕ) (ofs size done calls : ℕ) (buf : List ℕ) where
    read_loop-full :
        done ≡ size
        → read_loop env is_dump_read param (suc f) file ofs size done calls buf
          ≡ ok (buf, done, calls)
    unfolding read_loop
    read_loop-full e = ground arith

    read_loop-end :
        done ≢ size
        → pread (env.answers calls) file (size - done) (ofs + done) ≡ some []
        → read_loop env is_dump_read param (suc f) file ofs size done calls buf
          ≡ ok (buf, done, suc calls)
    unfolding read_loop
    read_loop-end ne e = ground arith

    read_loop-more :
        (b : ℕ) (bytes buf' : List ℕ)
        → done ≢ size
        → pread (env.answers calls) file (size - done) (ofs + done) ≡ some (b ∷ bytes)
        → write_bytes buf done (b ∷ bytes) ≡ ok buf'
        → read_loop env is_dump_read param (suc f) file ofs size done calls buf
          ≡ read_loop env is_dump_read param f file ofs size
              (done + length (b ∷ bytes))
              (suc calls)
              buf'
    unfolding read_loop
    read_loop-more b bytes buf' ne e w = ground arith

  -- Every call that is not at the end of the file brings the loop further, so it ends, with the
  -- file's bytes in the buffer.
  read_loop-ok :
      (f : ℕ) (file : List ℕ) (ofs size done calls : ℕ) (buf : List ℕ)
      → size - done < f
      → done ≤ size
      → size ≤ length buf
      → done ≤ length (drop ofs file)
      → take done buf ≡ take done (drop ofs file)
      → (out : List ℕ × ℕ × ℕ) × (read_loop env is_dump_read param f file ofs size done calls buf
          ≡ ok out)
        × HasRead file ofs size buf out
  read_loop-ok zero file ofs size done calls buf fuel le room some_left got = absurd (omega arith)
  read_loop-ok (suc f) file ofs size done calls buf fuel le room some_left got =
      elim (ℕ_discrete done size) [
        | yes all ↦ (
          (buf, done, calls),
          read_loop-full f file ofs size done calls buf all,
          record { reached = omega (arith, all); bytes = got; same = refl },
        )
        | no more ↦
            let left : List ℕ = drop ofs file in
            let rest : List ℕ = drop done left in
            let (n, answer) = alive calls in
            let k : ℕ = min (suc n) (size - done) in
            let later = drop-drop done ofs (ofs + done) file refl in
            let got_bytes : pread (env.answers calls) file (size - done) (ofs + done)
                ≡ some (take k rest) =
              pread-count (env.answers calls) n file (size - done) (ofs + done) rest answer later in
            let size_rest = length-drop done left in
            let size_chunk = length-take k rest in
            elim (List-cases (take k rest)) [
              | inl none_left ↦ (
                (buf, done, suc calls),
                read_loop-end f file ofs size done calls buf more (got_bytes ∙ ap some none_left),
                record {
                  reached = omega (arith, ap length none_left, more);
                  bytes = got;
                  same = refl;
                },
              )
              | inr (b, bytes, e) ↦
                  let chunk : List ℕ = b ∷ bytes in
                  let done' : ℕ = done + length chunk in
                  let long = ap length e in
                  let fits : done' ≤ length buf = omega (arith, long, more) in
                  let buf' : List ℕ = patch buf done chunk in
                  let read_chunk : chunk ≡ take (length chunk) rest =
                    sym e ∙ take-own_length k rest ∙ ap (λ l. take (length l) rest) e in
                  let got' : take done' buf' ≡ take done' left =
                    take-patch buf done done' chunk (omega (arith, room)) refl
                    ∙ ap₂ ◌++◌ got read_chunk
                    ∙ take-take-drop done (length chunk) done' left refl in
                  let (out, run, r) =
                    read_loop-ok f file ofs size done' (suc calls) buf' (omega (arith, more))
                      (omega (arith, long, more)) (omega (arith, length-patch buf done chunk fits))
                      (omega (arith, long)) got' in
                  (
                    out,
                    read_loop-more f file ofs size done calls buf b bytes buf' more
                          (got_bytes ∙ ap some e) (write_bytes-fits buf done chunk fits)
                        ∙ run,
                    record {
                      reached = r.reached;
                      bytes = r.bytes;
                      same = r.same ∙ length-patch buf done chunk fits;
                    },
                  )
            ]
      ]

  -- A read hint leaves the file, and puts the file's bytes at the first trace's offset into the
  -- buffer, with zeros for those behind the end of the file; with a dump file they are appended to
  -- it. This holds however short the reads are, as long as each of them transfers something.
  pub read_hint-zero_filled :
      (h : TraceReplayHint) (s : WorkerState Ctx) (x : TraceInfo)
      → get_elem? param.infos_map h.start_trace_line ≡ some x
      → h.continuous_blks * 4096 ≤ length s.buf
      → let bytes = zero_filled (drop x.ofs s.file) (h.continuous_blks * 4096) in
        (s' : WorkerState Ctx) × (read_hint env is_dump_read param h s ≡ ok s')
        × (s'.file ≡ s.file)
        × (take (h.continuous_blks * 4096) s'.buf ≡ bytes)
        × (s'.dump ≡ (if is_dump_read then s.dump ++ bytes else s.dump))
        × (length s'.buf ≡ length s.buf)
  unfolding read_hint
  read_hint-zero_filled h s x first room =
      let size : ℕ = h.continuous_blks * 4096 in
      let left : List ℕ = drop x.ofs s.file in
      let ((buf, done, calls), e, r) =
        read_loop-ok (suc size) s.file x.ofs size 0 s.calls s.buf (omega arith) (omega arith) room
          (omega arith) refl in
      let zeros : List ℕ = replicate (size - done) 0 in
      let size_zeros : length zeros ≡ size - done = length-replicate (size - done) 0 in
      let reached = r.reached in
      let fits : done + length zeros ≤ length buf = omega (arith, size_zeros, reached, r.same) in
      let content : take size (patch buf done zeros) ≡ zero_filled left size =
        take-patch buf done size zeros (omega (arith, r.same, reached, room))
          (omega (arith, size_zeros, reached))
        ∙ ap₂ ◌++◌ (r.bytes ∙ same_part done size left reached)
            (ap (λ n. replicate n 0) (omega (arith, reached))) in
      (
        record s {
          buf = patch buf done zeros;
          calls = calls;
          dump = if is_dump_read then s.dump ++ take size (patch buf done zeros) else s.dump;
        },
        >>=-ok _ (ap read first) ∙ >>=-ok _ e ∙ >>=-ok _ (write_bytes-fits buf done zeros fits),
        refl,
        content,
        ap (λ b. if is_dump_read then s.dump ++ b else s.dump) content,
        length-patch buf done zeros fits ∙ r.same,
      )
    where
      same_part :
          (done size : ℕ) (left : List ℕ)
          → done ≡ min size (length left)
          → take done left ≡ take size left
      same_part done size left e =
          ap (λ n. take n left) (e ∙ sym (length-take size left)) ∙ sym (take-own_length size left)
