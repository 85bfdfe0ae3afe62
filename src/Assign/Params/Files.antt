-- ===== src/Assign/Params/Files.antt =====
-- What the workers do with their parameters: the files that they leave.
use gogeta_fs_ae.Common.{
  ℕ, ◌*◌, ◌≡◌, inl, inr, refl, sym, subst, Bool, true, false, Option, List, [], ◌∷◌, length, select,
  ok, Bool-cases, arith,
}
use gogeta_fs_ae.Trace.{TraceInfo, TraceReplayHint}
use gogeta_fs_ae.Fill.{RandGener}
use gogeta_fs_ae.Fill.Content.{Reseeds}
use gogeta_fs_ae.Sort.Stable.{has_ts}
use gogeta_fs_ae.Worker.{Env, WorkerState, Mode, opened, replay_worker}
use gogeta_fs_ae.Worker.Spec.{AllPlayable, replayed}
use gogeta_fs_ae.Worker.Replays.{Completes, replay_worker-replays}
use gogeta_fs_ae.Assign.Params.{Share, param_of}
use gogeta_fs_ae.Assign.Params.Replayed.{Prepared}

pub AllPlayable-select :
    (p : TraceInfo → Bool) (l : List TraceInfo) → AllPlayable l → AllPlayable (select p l)
AllPlayable-select p [] a = tt
AllPlayable-select p (x ∷ l) a = elim (Bool-cases (p x)) [
  | inl e ↦ subst AllPlayable (sym (select-in e)) (a.0, AllPlayable-select p l a.1)
  | inr e ↦ subst AllPlayable (sym (select-out e)) (AllPlayable-select p l a.1)
]
  where
    select-in : p x ≡ true → select p (x ∷ l) ≡ x ∷ select p l
    select-in e = rw (select, e)

    select-out : p x ≡ false → select p (x ∷ l) ≡ select p l
    select-out e = rw (select, e)

-- A list is playable if its traces of each time stamp are.
AllPlayable-runs :
    (l : List TraceInfo) → ((t : ℕ) → AllPlayable (select (has_ts t) l)) → AllPlayable l
AllPlayable-runs [] a = tt
AllPlayable-runs (x ∷ l) a = (
  (subst AllPlayable (select-in x.ts refl) (a x.ts)).0,
  AllPlayable-runs l (λ t. elim (Bool-cases (has_ts t x)) [
    | inl e ↦ (subst AllPlayable (select-in t (ground arith)) (a t)).1
    | inr e ↦ subst AllPlayable (select-out t e) (a t)
  ]),
)
  where
    select-in : (t : ℕ) → x.ts ≡ t → select (has_ts t) (x ∷ l) ≡ x ∷ select (has_ts t) l
    select-in t e = ground (arith, e)

    select-out : (t : ℕ) → has_ts t x ≡ false → select (has_ts t) (x ∷ l) ≡ select (has_ts t) l
    select-out t e = rw (select, e)

-- A worker with the parameters that assign_params_per_worker prepared for it ends well, if its traces
-- are playable, malloc finds memory of the size it is asked for, seeding resets the generator, the
-- files can be opened and each call transfers what it is asked for. Its file is then the one that its
-- traces leave, replayed one at a time in the order of time.
pub replay_worker-Prepared :
    {Ctx : Type 0} (malloc : ℕ → List ℕ) (rand_gener : Option (RandGener Ctx)) (ctx₀ ctx : Ctx)
    (mode : Mode) (max_blks : ℕ) (hints : List TraceReplayHint) (l : List TraceInfo) (share : Share)
    (env : Env) (is_dump_read : Bool)
    → ((size : ℕ) → length (malloc size) ≡ size)
    → Reseeds rand_gener
    → Prepared max_blks hints l share
    → AllPlayable l
    → Completes env (share.scan.max_continuous * 4096)
    → env.can_open ≡ true
    → env.can_dump ≡ true
    → (s : WorkerState Ctx) × (replay_worker env is_dump_read
          (param_of malloc rand_gener ctx mode hints share)
        ≡ ok s)
      × (s.file ≡ replayed rand_gener ctx₀ mode (opened env.existing) share.infos)
unfolding param_of
replay_worker-Prepared malloc rand_gener ctx₀ ctx mode max_blks hints l share env is_dump_read gives
      reset p a complete opens dumps =
    let m : ℕ = share.scan.max_continuous in
    let param = param_of malloc rand_gener ctx mode hints share in
    let room : length (malloc (m * 4096)) ≡ m * 4096 = gives (m * 4096) in
    let playable : AllPlayable share.infos =
      AllPlayable-runs share.infos
        (λ t. subst AllPlayable (sym (p.same t)) (AllPlayable-select (has_ts t) l a)) in
    replay_worker-replays env is_dump_read param ctx₀ reset
      (subst (Completes env) (sym room) complete) max_blks m share.scan.hints p.slice p.ends
      p.covers p.within (omega (arith, room)) playable opens dumps
