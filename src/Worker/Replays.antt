-- ===== src/Worker/Replays.antt =====
-- A whole worker: its merged writes leave the file that its traces leave one at a time.
use gogeta_fs_ae.Common.{
  ℕ, suc, ◌+◌, ◌-◌, ◌*◌, ◌≤◌, ◌≡◌, ◌≢◌, ◌⊎◌, inl, inr, refl, ap, sym, subst, ◌∙◌, Bool, true, false,
  ◌&&◌, not, Option, List, [], ◌∷◌, ◌++◌, ◌==◌, ==_iff, append_assoc, append-nil, length, take,
  drop, select, select-append, read, Result, ok, err, exited, >>=-ok, arith, length-take,
  take-append-drop, Bool-cases, if◌then◌else◌,
}
use gogeta_fs_ae.Trace.{TraceInfo, TraceReplayHint}
use gogeta_fs_ae.Slice.{Holds, Holds-append, Holds-self}
use gogeta_fs_ae.File.{count}
use gogeta_fs_ae.Fill.{RandGener}
use gogeta_fs_ae.Fill.Content.{Reseeds}
use gogeta_fs_ae.Hints.Cover.{IsRun, Covers, AllWithin}
use gogeta_fs_ae.Worker.{
  Mode, write_only, read_write, append, Env, WorkerState, ReplayParam, char_w, opened, replay_hint,
  read_hint, replay_from, replay_worker,
}
use gogeta_fs_ae.Worker.Spec.{
  AllPlayable, AllPlayable-take, AllPlayable-drop, is_write, blocks, blocks-append, replay_all,
  replay_all-append, replayed,
}
use gogeta_fs_ae.Worker.Hint.{write_hint-ok, append_hint-ok}
use gogeta_fs_ae.Worker.Reads.{Progresses, read_hint-zero_filled}

-- Each call transfers all that it is asked for, up to `size` bytes.
abbrev pub Completes : Env → ℕ → Type 0
Completes env size = (k : ℕ) → (n : ℕ) × (env.answers k ≡ count (suc n)) × (size ≤ n)

-- A run in mode W is all writes, any other has none.
select-run_write :
    (mode : ℕ) (l : List TraceInfo) → IsRun mode l → mode ≡ char_w → select is_write l ≡ l
select-run_write mode [] run e = refl
select-run_write mode (x ∷ []) run e = ground arith
select-run_write mode (x ∷ y ∷ l) run e = ground (arith, select-run_write mode (y ∷ l) run.2 e)

select-run_read :
    (mode : ℕ) (l : List TraceInfo) → IsRun mode l → mode ≢ char_w → select is_write l ≡ []
select-run_read mode [] run e = refl
select-run_read mode (x ∷ []) run e = ground arith
select-run_read mode (x ∷ y ∷ l) run e = ground (arith, select-run_read mode (y ∷ l) run.2 e)

module _ {Ctx : Type 0} (g : Option (RandGener Ctx)) (ctx₀ : Ctx) where
  replayed-append :
      (m : Mode) (file : List ℕ) (l r : List TraceInfo)
      → replayed g ctx₀ m file (l ++ r) ≡ replayed g ctx₀ m (replayed g ctx₀ m file l) r
  unfolding replayed
  replayed-append write_only file l r = replay_all-append g ctx₀ l r file
  replayed-append append file l r =
      ap (λ b. file ++ b) (blocks-append g ctx₀ l r)
      ∙ sym (append_assoc file (blocks g ctx₀ l) (blocks g ctx₀ r))
  replayed-append read_write file l r =
      ap (replay_all g ctx₀ file) (select-append is_write l r)
      ∙ replay_all-append g ctx₀ (select is_write l) (select is_write r) file

  replayed-nil : (m : Mode) (file : List ℕ) → replayed g ctx₀ m file [] ≡ file
  unfolding replayed blocks replay_all
  replayed-nil write_only file = refl
  replayed-nil append file = append-nil file
  replayed-nil read_write file = refl

  -- In read-write mode only the writes count.
  only_writes :
      (file : List ℕ) (l w : List TraceInfo)
      → select is_write l ≡ w
      → replayed g ctx₀ read_write file l ≡ replayed g ctx₀ write_only file w
  unfolding replayed
  only_writes file l w e = ap (replay_all g ctx₀ file) e

module _ {Ctx : Type 0} (env : Env) (is_dump_read : Bool) (param : ReplayParam Ctx) (ctx₀ : Ctx)
    (reset : Reseeds param.rand_gener) (complete : Completes env (length param.buf)) where
  abbrev file_after : Mode → List ℕ → List TraceInfo → List ℕ
  file_after m file l = replayed param.rand_gener ctx₀ m file l

  -- One hint, in each mode.
  abbrev Replays : Mode → TraceReplayHint → WorkerState Ctx → List TraceInfo → Type 0
  Replays m h s run =
      (s' : WorkerState Ctx) × (replay_hint env is_dump_read param m h s ≡ ok s')
      × (s'.file ≡ file_after m s.file run)
      × (length s'.buf ≡ length s.buf)

  module _ (h : TraceReplayHint) (s : WorkerState Ctx) (x : TraceInfo) (l : List TraceInfo)
      (slice : Holds param.infos_map h.start_trace_line (x ∷ l)) (a : AllPlayable (x ∷ l))
      (k : h.continuous_blks ≡ length (x ∷ l)) (run : IsRun h.rw (x ∷ l))
      (buffer : length s.buf ≡ length param.buf)
      (room : h.continuous_blks * 4096 ≤ length s.buf) where
    room_run : length (x ∷ l) * 4096 ≤ length s.buf
    room_run = subst (λ n. n * 4096 ≤ length s.buf) k room

    replay_write_only : Replays write_only h s (x ∷ l)
    unfolding replay_hint replayed
    replay_write_only =
        let (n, answer, big) = complete s.calls in
        write_hint-ok env is_dump_read param ctx₀ reset h s x l (suc n) slice a k room_run answer
          (omega (arith, buffer, big)) h.rw run

    replay_append : Replays append h s (x ∷ l)
    unfolding replay_hint replayed
    replay_append =
        let (n, answer, big) = complete s.calls in
        append_hint-ok env is_dump_read param ctx₀ reset h s x l (suc n) slice a k room_run answer
          (omega (arith, buffer, big))

    replay_hint-write :
        h.rw ≡ char_w
        → replay_hint env is_dump_read param read_write h s
          ≡ replay_hint env is_dump_read param write_only h s
    unfolding replay_hint
    replay_hint-write e = ground arith

    replay_hint-read :
        (h.rw == char_w) ≡ false
        → replay_hint env is_dump_read param read_write h s ≡ read_hint env is_dump_read param h s
    unfolding replay_hint
    replay_hint-read e = ground arith

    alive : Progresses env
    alive k = let (n, answer, big) = complete k in (n, answer)

    replay_read_write : Replays read_write h s (x ∷ l)
    replay_read_write = elim (Bool-cases (h.rw == char_w)) [
      | inl w ↦
          let w_mode = (==_iff h.rw char_w).0 w in
          let (s', e, file, size) = replay_write_only in
          let all = select-run_write h.rw (x ∷ l) run w_mode in
          (
            s',
            replay_hint-write w_mode ∙ e,
            file ∙ sym (only_writes param.rand_gener ctx₀ s.file (x ∷ l) (x ∷ l) all),
            size,
          )
      | inr r ↦
          let (s', e, file, bytes, dump, size) =
            read_hint-zero_filled env is_dump_read param alive h s x slice.0 room in
          let none_of_them =
            select-run_read h.rw (x ∷ l) run (λ w. ground (arith, (==_iff h.rw char_w).1 w)) in
          (
            s',
            replay_hint-read r ∙ e,
            file
                ∙ sym (
                    only_writes param.rand_gener ctx₀ s.file (x ∷ l) [] none_of_them
                    ∙ replayed-nil param.rand_gener ctx₀ write_only s.file),
            size,
          )
    ]

    pub replay_hint-ok : (m : Mode) → Replays m h s (x ∷ l)
    replay_hint-ok write_only = replay_write_only
    replay_hint-ok append = replay_append
    replay_hint-ok read_write = replay_read_write

  List-cases :
      (l : List TraceInfo) → (l ≡ []) ⊎ ((x : TraceInfo) × (r : List TraceInfo) × (l ≡ x ∷ r))
  List-cases [] = inl refl
  List-cases (x ∷ r) = inr (x, r, refl)

  -- The hints of a cover, one after the other.
  replay_from-ok :
      (max_blks m start i : ℕ) (hs : List TraceReplayHint) (l : List TraceInfo)
      (s : WorkerState Ctx)
      → Holds param.hints i hs
      → Covers max_blks start hs l
      → Holds param.infos_map start l
      → AllPlayable l
      → AllWithin m hs
      → m * 4096 ≤ length param.buf
      → length s.buf ≡ length param.buf
      → (s' : WorkerState Ctx) × (replay_from env is_dump_read param (length hs) i s ≡ ok s')
        × (s'.file ≡ file_after param.mode s.file l)
  unfolding replay_from
  replay_from-ok max_blks m start i [] l s hh c hl a w room buffer = (
    s,
    refl,
    sym (
        ap (file_after param.mode s.file) c ∙ replayed-nil param.rand_gener ctx₀ param.mode s.file),
  )
  replay_from-ok max_blks m start i (h ∷ hs) l s hh c hl a w room buffer =
      let k : ℕ = h.continuous_blks in
      elim (List-cases (take k l)) [
        | inl none_here ↦ absurd (subst (IsRun h.rw) none_here c.3)
        | inr (x, run, e) ↦
            let cut = sym (take-append-drop k l) in
            let halves =
              Holds-append param.infos_map start (start + k) (take k l) (drop k l)
                (omega (arith, length-take k l, c.2))
                (subst (Holds param.infos_map start) cut hl) in
            let slice =
              subst (λ i. Holds param.infos_map i (x ∷ run)) (sym c.0)
                (subst (Holds param.infos_map start) e halves.0) in
            let playable = subst AllPlayable e (AllPlayable-take k l a) in
            let size : k ≡ length (x ∷ run) = omega (arith, ap length e, length-take k l, c.2) in
            let (s₁, e₁, file₁, buf₁) =
              replay_hint-ok h s x run slice playable size (subst (IsRun h.rw) e c.3) buffer
                (omega (arith, w.0, room, buffer)) param.mode in
            let (s₂, e₂, file₂) =
              replay_from-ok max_blks m (start + k) (suc i) hs (drop k l) s₁ hh.1 c.4 halves.1
                (AllPlayable-drop k l a) w.1 room (buf₁ ∙ buffer) in
            (
              s₂,
              >>=-ok _ (ap read hh.0) ∙ >>=-ok _ e₁ ∙ e₂,
              file₂
                  ∙ ap (λ f. file_after param.mode f (drop k l))
                      (file₁ ∙ ap (file_after param.mode s.file) (sym e))
                  ∙ sym (
                      ap (file_after param.mode s.file) cut
                      ∙ replayed-append param.rand_gener ctx₀ param.mode s.file (take k l)
                          (drop k l)),
            )
      ]

  -- A worker whose hints cover its traces ends well, and its file holds what the traces leave when
  -- they are replayed one at a time: each block at its own offset (the writes only, in read-write
  -- mode), or one block behind the other in append mode. The buffer has room for every hint, every
  -- system call transfers what it is asked for, and the files open.
  pub replay_worker-replays :
      (max_blks m : ℕ) (hs : List TraceReplayHint)
      → Holds param.hints param.hints_start hs
      → param.hints_end ≡ param.hints_start + length hs
      → Covers max_blks 0 hs param.infos_map
      → AllWithin m hs
      → m * 4096 ≤ length param.buf
      → AllPlayable param.infos_map
      → env.can_open ≡ true
      → env.can_dump ≡ true
      → (s : WorkerState Ctx) × (replay_worker env is_dump_read param ≡ ok s)
        × (s.file ≡ file_after param.mode (opened env.existing) param.infos_map)
  unfolding replay_worker
  replay_worker-replays max_blks m hs hh ends c w room a opens dumps =
      let start : WorkerState Ctx = record {
        file = opened env.existing;
        buf = param.buf;
        ctx = param.ctx;
        dump = [];
        calls = 0;
      } in
      let (s, e, file) =
        replay_from-ok max_blks m 0 param.hints_start hs param.infos_map start hh c
          (Holds-self param.infos_map) a w room refl in
      let rounds : param.hints_end - param.hints_start ≡ length hs = omega (arith, ends) in
      (
        s,
        started (ap (λ n. replay_from env is_dump_read param n param.hints_start start) rounds ∙ e),
        file,
      )
    where
      started :
          {r : Result (WorkerState Ctx)} {s : WorkerState Ctx}
          → r ≡ ok s
          → (if is_dump_read && not env.can_dump
              then err (exited 1)
              else (if not env.can_open then err (exited 1) else r))
            ≡ ok s
      started e = ground (arith, opens, dumps, e)
