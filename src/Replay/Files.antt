-- ===== src/Replay/Files.antt =====
-- The files that a whole run leaves.
use gogeta_fs_ae.Common.{
  flat, map, ℕ, suc, ◌*◌, ◌^◌, ◌≡◌, ◌≤◌, ◌⊎◌, inl, inr, refl, ap, sym, subst, ◌∙◌, Bool, true,
  Option, some, List, [], ◌∷◌, ◌++◌, length, length-append, take, take-append_le, take-length, ok,
  err, out_of_bounds, ◌>>=◌, >>=-ok, >>=-err, arith,
}
use gogeta_fs_ae.Trace.{TraceInfo, TraceReplayHint}
use gogeta_fs_ae.Fill.{RandGener}
use gogeta_fs_ae.Fill.Content.{Reseeds}
use gogeta_fs_ae.Sort.Stable.{IsSorted, SameRuns}
use gogeta_fs_ae.Gather.{build_trace_containers}
use gogeta_fs_ae.Gather.Groups.{Complete}
use gogeta_fs_ae.Parse.Traces.{AllNonempty, Reads, parse_trace_info-Reads}
use gogeta_fs_ae.Random.{gener_of, gener_of-Reseeds}
use gogeta_fs_ae.Options.{Config}
use gogeta_fs_ae.Order.{trace_container_cmp}
use gogeta_fs_ae.Worker.{Env, WorkerState, Mode, opened}
use gogeta_fs_ae.Worker.Spec.{AllPlayable, replayed}
use gogeta_fs_ae.Worker.Replays.{Completes}
use gogeta_fs_ae.Assign.Sectors.{groups}
use gogeta_fs_ae.Assign.Sorted.{Distinct, share_map-Shared}
use gogeta_fs_ae.Assign.Params.{Share, shares_of}
use gogeta_fs_ae.Assign.Params.Replayed.{shares_of-AllPrepared, AllPrepared}
use gogeta_fs_ae.Assign.Params.Files.{replay_worker-Prepared}
use gogeta_fs_ae.Replay.Parts.{
  AllPlayable-parts, AllPlayable-groups, HasIdle, parts_of, flat-parts, total_length-parts,
  shares_of-Outcome,
}
use gogeta_fs_ae.Replay.{replay_workers, Library, Context, replay}

module _ {Ctx : Type 0} (malloc : ℕ → List ℕ) (envs : ℕ → Env) (rand_gener : Option (RandGener Ctx))
    (ctx₀ ctx : Ctx) (mode : Mode) (is_dump_read : Bool) where
  -- A worker's file is the one that its traces leave, one at a time in the order of time.
  abbrev pub Replayed : (i : ℕ) → List TraceInfo → WorkerState Ctx → Type 0
  Replayed i l s =
      (order : List TraceInfo) × IsSorted order
      × SameRuns l order
      × (s.file ≡ replayed rand_gener ctx₀ mode (opened (envs i).existing) order)

  abbrev pub AllReplayed : (i : ℕ) → List (List TraceInfo) → List (WorkerState Ctx) → Type 0
  AllReplayed i [] [] = Unit
  AllReplayed i [] (s ∷ ss) = ⊥
  AllReplayed i (l ∷ ls) [] = ⊥
  AllReplayed i (l ∷ ls) (s ∷ ss) = Replayed i l s × AllReplayed (suc i) ls ss

  module _ (gives : (size : ℕ) → length (malloc size) ≡ size) (reset : Reseeds rand_gener)
      (complete : (i : ℕ) → Completes (envs i) (2 ^ 42))
      (opens : (i : ℕ) → (envs i).can_open ≡ true)
      (dumps : (i : ℕ) → (envs i).can_dump ≡ true) where
    replay_workers-AllReplayed :
        (max_blks valid_lines : ℕ) (hints : List TraceReplayHint) (i : ℕ)
        (ls : List (List TraceInfo)) (shares : List Share)
        → AllPrepared max_blks valid_lines hints ls shares
        → AllPlayable (flat ls)
        → length (flat ls) ≤ 2 ^ 30
        → (states : List (WorkerState Ctx)) × (replay_workers malloc envs rand_gener ctx mode
              is_dump_read hints i shares
            ≡ ok states)
          × AllReplayed i ls states
    unfolding replay_workers
    replay_workers-AllReplayed max_blks valid_lines hints i [] [] p a small = ([], refl, tt)
    replay_workers-AllReplayed max_blks valid_lines hints i [] (s ∷ ss) p a small = absurd p
    replay_workers-AllReplayed max_blks valid_lines hints i (l ∷ ls) [] p a small = absurd p
    replay_workers-AllReplayed max_blks valid_lines hints i (l ∷ ls) (share ∷ shares) p a small =
        let (own, others) = AllPlayable-parts l (flat ls) a in
        let size = length-append l (flat ls) in
        let room : share.scan.max_continuous * 4096 ≤ 2 ^ 42 =
          omega (arith, p.0.sized, size, small) in
        let (s, e, file) =
          replay_worker-Prepared malloc rand_gener ctx₀ ctx mode max_blks hints l share (envs i)
            is_dump_read gives reset p.0 own
            (λ k. let (n, at, le) = complete i k in (n, at, omega (arith, le, room))) (opens i)
            (dumps i) in
        let (states, e', rest) =
          replay_workers-AllReplayed max_blks valid_lines hints (suc i) ls shares p.1 others
            (omega (arith, size, small)) in
        (s ∷ states, >>=-ok _ e ∙ >>=-ok _ e', ((share.infos, p.0.sorted, p.0.same, file), rest))

-- Every trace that the lines can be read as is playable.
abbrev pub Playable : Library → Config → List (List ℕ) → Type 0
Playable lib c lines =
    (infos : List TraceInfo)
    → Reads lib.sscanf c.trace_format_type c.mode lines infos
    → AllPlayable infos

-- Memory is found, of the size that is asked for.
pub record Provides (lib : Library) (lines : List (List ℕ)) : Type 0 where
  pub cells : List TraceInfo
  pub found : lib.malloc_infos (length lines) ≡ some cells
  pub sized : length cells ≡ length lines
  pub grows : (bytes : ℕ) → lib.realloc bytes ≡ true
  pub gives : (size : ℕ) → length (lib.malloc size) ≡ size

-- The files open, and each call transfers what it is asked for.
pub record Serves (lib : Library) : Type 0 where
  pub opens : (i : ℕ) → (lib.envs i).can_open ≡ true
  pub dumps : (i : ℕ) → (lib.envs i).can_dump ≡ true
  pub completes : (i : ℕ) → Completes (lib.envs i) (2 ^ 42)

-- A run that parses `lines` to `infos` and hands their sectors out as `shared`, each of them once.
pub record Run (lib : Library) (c : Config) (ctx₀ ctx : Context lib c) (lines : List (List ℕ))
    : Type 0 where
  pub infos : List TraceInfo
  pub reads : Reads lib.sscanf c.trace_format_type c.mode lines infos
  pub sectors : List (ℕ × ℕ)
  pub shared : List (List (List TraceInfo))
  pub workers : length shared ≡ c.threads
  pub whole : flat shared ≡ groups infos sectors
  -- no sector twice, and none of the traces' missing
  pub distinct : Distinct sectors
  pub complete : Complete sectors infos
  pub all : length (flat (flat shared)) ≡ length infos
  pub ends :
      (HasIdle shared × (replay lib c ctx lines ≡ err out_of_bounds))
      ⊎ ((states : List (WorkerState (Context lib c))) × (replay lib c ctx lines ≡ ok states)
          × AllReplayed lib.malloc lib.envs
              (gener_of lib.mt lib.rand_r c.rand_gener_type)
              ctx₀
              ctx
              c.mode
              c.is_dump_read
              0
              (parts_of shared)
              states)

module _ (lib : Library) (c : Config) (ctx₀ ctx : Context lib c) (lines : List (List ℕ)) where
  -- With memory, at most 2 ^ 30 lines that each have a character, at least one worker, lines that read as
  -- playable traces, a seeding of mt19937ar that forgets its state, and files that open and whose calls
  -- transfer what they are asked for: the lines that count become traces, and their sectors, each once
  -- and with all its traces in their order, are handed out to the workers, so that every trace goes to
  -- one worker, once. Then
  -- either a worker got no trace, and the run reads outside of an array; or the run ends well, and every
  -- worker's file is the one that its traces leave, replayed one at a time in the order of time.
  pub replay-files :
      Provides lib lines
      → Serves lib
      → ((st st' : lib.mt.State) (s : ℕ) → lib.mt.init_genrand_r st s ≡ lib.mt.init_genrand_r st' s)
      → AllNonempty lines
      → length lines ≤ 2 ^ 30
      → 1 ≤ c.threads
      → Playable lib c lines
      → Run lib c ctx₀ ctx lines
  unfolding replay
  replay-files memory files seeds full small some_worker playable =
      let g = gener_of lib.mt lib.rand_r c.rand_gener_type in
      let (infos, other, e₁, reads, traces, few) =
        parse_trace_info-Reads lib.sscanf c.trace_format_type c.mode lib.malloc_infos lines
          memory.cells full memory.found memory.sized in
      let cut : take (length infos) (infos ++ other) ≡ infos =
        take-append_le (length infos) infos other (omega arith) ∙ take-length infos in
      let (map, heap, s, shared, e₂, e₃, all, workers, whole, none_left, distinct, every) =
        share_map-Shared lib.realloc lib.rand lib.hm memory.grows c.threads infos some_worker
          (omega (arith, few, small)) in
      let n : ℕ = length infos in
      let max_blks : ℕ = c.max_continuous_4K_blks in
      let behind = λ (r : List Share × List TraceReplayHint).
        replay_workers lib.malloc lib.envs g ctx c.mode c.is_dump_read r.1 0 r.0 in
      let begins : replay lib c ctx lines ≡ (shares_of max_blks n [] s.tcs >>= behind) =
        >>=-ok _ e₁
        ∙ >>=-ok _
            (ap (build_trace_containers lib.realloc lib.hm lib.hm.hashmap_create []) cut ∙ e₂)
        ∙ >>=-ok _ e₃ in
      let room : length (flat (flat shared)) ≤ n = omega (arith, none_left) in
      let owned : AllPlayable (flat (parts_of shared)) =
        subst AllPlayable (sym (flat-parts shared)) (
          subst (λ gs. AllPlayable (flat gs)) (sym whole)
            (AllPlayable-groups infos _ (playable infos reads))) in
      record {
        infos = infos;
        reads = reads;
        sectors = lib.hm.entries (lib.hm.hashmap_sort map trace_container_cmp);
        shared = shared;
        workers = workers;
        whole = whole;
        distinct = distinct;
        complete = every;
        all = none_left;
        ends =
            elim (shares_of-Outcome max_blks n (omega (arith, few, small)) [] s.tcs shared all
              (omega (arith, room))) [
                | inl (idle, e) ↦ inl (idle, begins ∙ >>=-err _ e)
                | inr loaded ↦
                    let (shares, hints, e, prepared) =
                      shares_of-AllPrepared max_blks n s.tcs (parts_of shared) loaded
                        (omega (arith, room, total_length-parts max_blks n shared)) in
                    let (states, e', replayed_all) =
                      replay_workers-AllReplayed lib.malloc lib.envs g ctx₀ ctx c.mode
                        c.is_dump_read memory.gives
                        (gener_of-Reseeds lib.mt lib.rand_r seeds c.rand_gener_type) files.completes
                        files.opens files.dumps max_blks n hints 0 (parts_of shared) shares prepared
                        owned (omega (arith, room, ap length (flat-parts shared), few, small)) in
                    inr (states, begins ∙ >>=-ok _ e ∙ e', replayed_all)
              ];
      }
