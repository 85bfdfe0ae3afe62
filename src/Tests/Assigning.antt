-- ===== src/Tests/Assigning.antt =====
-- Lines, containers in the heap and the workers' parameters.
use gogeta_fs_ae.Common.{
  flat, ℕ, ◌+◌, ◌%◌, ◌^◌, ◌≡◌, ◌≤◌, ◌<◌, ◌↔◌, refl, List, [], ◌∷◌, ◌++◌, Bool, true, false, none,
  some, length, ok, err, out_of_bounds, arith, replicate, length-replicate, ◌==◌,
}
use gogeta_fs_ae.Trace.{TraceInfo, TraceReplayHint}
use gogeta_fs_ae.Container.{TraceContainer, trace_container_create, trace_container_add}
use gogeta_fs_ae.Container.Contents.{Contains, create-Contains, add-Added}
use gogeta_fs_ae.HashMap.{HashMap, lookup, same}
use gogeta_fs_ae.Gather.{Heap, build_trace_containers}
use gogeta_fs_ae.Gather.Build.{Gathered, build_trace_containers-Gathered}
use gogeta_fs_ae.Order.{
  trace_container_cmp, is_negative, trace_container_cmp-near, trace_container_cmp-far,
}
use gogeta_fs_ae.Random.{
  Mt19937ar, random_mt19937ar, lcg_rand_r, lcg_rand_r-low_bits, gener_of, gener_of-Reseeds,
}
use gogeta_fs_ae.Fill.Content.{Reseeds}
use gogeta_fs_ae.Worker.{read_write, opened, replay_worker, WorkerState}
use gogeta_fs_ae.Worker.Spec.{replayed}
use gogeta_fs_ae.Assign.Shares.{Shares, share_containers}
use gogeta_fs_ae.Assign.Shares.Groups.{AllContain}
use gogeta_fs_ae.Assign.Shares.Whole.{share_containers-AllContain}
use gogeta_fs_ae.Assign.Params.{Share, share_of, shares_of, param_of}
use gogeta_fs_ae.Assign.Params.Replayed.{
  Prepared, AllPrepared, share_of-empty, shares_of-AllPrepared,
}
use gogeta_fs_ae.Assign.Params.Files.{replay_worker-Prepared}
use gogeta_fs_ae.Parse.{Scanner, fiu, parse_trace_info}
use gogeta_fs_ae.Parse.Traces.{Reads, AllTraces, parse_trace_info-Reads}
use gogeta_fs_ae.Assign.Sectors.{groups}
use gogeta_fs_ae.Assign.Sorted.{share_map, share_map-AllContain}
use gogeta_fs_ae.Options.{Config, initial, slash, Opt, opt_f, opt_d, configure}
use gogeta_fs_ae.Options.Checked.{configure-defaults}
use gogeta_fs_ae.Tests.Data.{
  write_of, read_of, traces, played, played_hints, playable, played-Covers, obliging,
}

abbrev plenty : ℕ → Bool
plenty bytes = true

-- A map as the list of its entries.
pub replaced : List (ℕ × ℕ) → ℕ → ℕ → List (ℕ × ℕ)
replaced [] k v = (k, v) ∷ []
replaced ((j, w) ∷ m) k v = elim (j == k) [ true ↦ (j, v) ∷ m | false ↦ (j, w) ∷ replaced m k v ]

pub replaced-new :
    (m : List (ℕ × ℕ)) (k v : ℕ) → lookup k m ≡ none → replaced m k v ≡ m ++ (k, v) ∷ []
unfolding replaced
replaced-new [] k v h = refl
replaced-new ((j, w) ∷ m) k v h = ground (arith, h, replaced-new m k v)

abbrev pub list_map : HashMap
list_map = record {
  Map = List (ℕ × ℕ);
  hashmap_create = [];
  hashmap_get = λ m k. lookup k m;
  hashmap_set = replaced;
  hashmap_sort = λ m cmp. m;
  entries = λ m. m;
  entries-create = refl;
  get-lookup = λ m k. refl;
  entries-set = replaced-new;
  entries-sort = λ m cmp. same;
}

build_trace_containers-Gathered_example :
    (map : List (ℕ × ℕ)) × (heap : Heap) × (build_trace_containers plenty list_map [] [] traces
      ≡ ok (map, heap))
    × Gathered plenty (λ bytes. refl) list_map map heap traces
build_trace_containers-Gathered_example =
    build_trace_containers-Gathered plenty (λ bytes. refl) list_map traces (omega arith)

near-test :
    (is_negative (trace_container_cmp 8 16) ≡ true)
    × ((trace_container_cmp 8 16 ≡ 0) ↔ ◌≡◌ {A = ℕ} 8 16)
near-test = trace_container_cmp-near 8 16 (omega arith) (omega arith) (omega arith) (omega arith)

trace_container_cmp-far_example : is_negative (trace_container_cmp (2 ^ 31) 0) ≡ true
trace_container_cmp-far_example =
    trace_container_cmp-far (2 ^ 31) 0 (omega arith) (omega arith) (omega arith)

low_bits-test : (lcg_rand_r 5 ≡ lcg_rand_r (5 + 2 ^ 31)) × (lcg_rand_r 5 < 2 ^ 31)
low_bits-test = lcg_rand_r-low_bits 5 (5 + 2 ^ 31) refl

abbrev pub counter : Mt19937ar
counter = record {
  State = ℕ;
  init_genrand_r = λ st s. s;
  genrand_int32_r = λ st. ((st + 1) % 2 ^ 32, st);
}

generator-test : Reseeds (gener_of counter (λ s. (s + 1, s)) random_mt19937ar)
generator-test = gener_of-Reseeds counter (λ s. (s + 1, s)) (λ st st' s. refl) random_mt19937ar

-- One trace in a container.
loaded :
    (x : TraceInfo)
    → (tc : TraceContainer) × (trace_container_add plenty (trace_container_create 64 x.lba) x
        ≡ ok tc)
      × Contains tc (x ∷ [])
loaded x =
    add-Added plenty (λ bytes. refl) (trace_container_create 64 x.lba) x []
      (create-Contains 64 x.lba (omega arith)) (omega arith)

share_containers-AllContain_example :
    let heap : Heap =
      some (loaded (write_of 3 8 b'a')).0 ∷ some (loaded (write_of 1 0 b'b')).0 ∷ [] in
    (s : Shares) × (shared : List (List (List TraceInfo))) × (share_containers plenty
        (λ k. 7)
        2
        2
        heap
        (1 ∷ 0 ∷ [])
      ≡ ok s)
    × AllContain s.tcs shared
    × (length shared ≡ 2)
    × (flat shared ≡ (write_of 1 0 b'b' ∷ []) ∷ (write_of 3 8 b'a' ∷ []) ∷ [])
share_containers-AllContain_example =
    share_containers-AllContain plenty (λ bytes. refl) (λ k. 7) 2 2
      (some (loaded (write_of 3 8 b'a')).0 ∷ some (loaded (write_of 1 0 b'b')).0 ∷ []) (1 ∷ 0 ∷ [])
      ((write_of 1 0 b'b' ∷ []) ∷ (write_of 3 8 b'a' ∷ []) ∷ []) (omega arith)
      (
        ((loaded (write_of 1 0 b'b')).0, refl, (loaded (write_of 1 0 b'b')).2),
        ((λ e. omega (arith, e)), tt),
        (((loaded (write_of 3 8 b'a')).0, refl, (loaded (write_of 3 8 b'a')).2), tt, tt),
      )
      (omega arith)

idle_worker-test : share_of 4 3 [] (trace_container_create 64 1) ≡ err out_of_bounds
idle_worker-test =
    share_of-empty 4 3 [] (trace_container_create 64 1) (create-Contains 64 1 (omega arith))

abbrev two_workers : List TraceContainer
two_workers = (loaded (write_of 3 8 b'a')).0 ∷ (loaded (write_of 1 0 b'b')).0 ∷ []

abbrev two_lists : List (List TraceInfo)
two_lists = (write_of 3 8 b'a' ∷ []) ∷ (write_of 1 0 b'b' ∷ []) ∷ []

shares_of-AllPrepared_example :
    (shares : List Share) × (hints : List TraceReplayHint) × (shares_of 4 2 [] two_workers
      ≡ ok (shares, hints))
    × AllPrepared 4 2 hints two_lists shares
shares_of-AllPrepared_example =
    shares_of-AllPrepared 4 2 two_workers two_lists
      (
        (loaded (write_of 3 8 b'a')).2,
        omega arith,
        omega arith,
        ((loaded (write_of 1 0 b'b')).2, omega arith, omega arith, tt),
      )
      (omega arith)

-- sscanf of two fields: the first byte is the sector, the second the kind.
abbrev bytewise : Scanner
bytewise = record {
  scan_fiu = λ line old. elim line [ [] ↦ (old, 0) | b ∷ line' ↦ (record old { lba = b }, 9) ];
  scan_hitsz = λ line old. (old, 0);
}

parse_trace_info-Reads_example :
    (infos : List TraceInfo) × (other : List TraceInfo) × (parse_trace_info bytewise
        (λ n. some (read_of 0 0 ∷ read_of 0 0 ∷ []))
        fiu
        read_write
        ((8 ∷ 10 ∷ []) ∷ (10 ∷ []) ∷ [])
      ≡ ok (infos ++ other, length infos))
    × Reads bytewise fiu read_write ((8 ∷ 10 ∷ []) ∷ (10 ∷ []) ∷ []) infos
    × AllTraces read_write infos
    × (length infos ≤ 2)
parse_trace_info-Reads_example =
    parse_trace_info-Reads bytewise fiu read_write (λ n. some (read_of 0 0 ∷ read_of 0 0 ∷ []))
      ((8 ∷ 10 ∷ []) ∷ (10 ∷ []) ∷ []) (read_of 0 0 ∷ read_of 0 0 ∷ [])
      (omega arith, (omega arith, tt)) refl refl

abbrev played_share : Share
played_share = record {
  infos = played;
  scan = record { hints = played_hints; max_continuous = 2; consecutive_start = 3 };
  hints_start = 0;
  hints_end = 2;
}

played-Prepared : Prepared 4 played_hints played played_share
played-Prepared = record {
  sorted = ((omega arith, (omega arith, tt)), ((omega arith, tt), (tt, tt)));
  same = λ t. refl;
  covers = played-Covers;
  within = (omega arith, (omega arith, tt));
  slice = (refl, (refl, tt));
  ends = refl;
  sized = omega arith;
}

replay_worker-Prepared_example :
    (s : WorkerState ℕ) × (replay_worker obliging false
        (param_of (λ size. replicate size 0) none 3 read_write played_hints played_share)
      ≡ ok s)
    × (s.file ≡ replayed {Ctx = ℕ} none 0 read_write (opened none) played)
replay_worker-Prepared_example =
    replay_worker-Prepared (λ size. replicate size 0) none 0 3 read_write 4 played_hints played
      played_share obliging false (λ size. length-replicate size 0) tt played-Prepared playable
      (λ k. (1000000, refl, omega arith)) refl refl

-- replay -f t -d m
abbrev basic_options : List Opt
basic_options = opt_f (b't' ∷ []) ∷ opt_d (b'm' ∷ []) ∷ []

abbrev basic_config : Config
basic_config = record initial { filepath = b't' ∷ []; dstpath = b'm' ∷ slash ∷ [] }

defaults-test : configure (λ s. 0) (λ s. true) basic_options ≡ ok basic_config
defaults-test =
    configure-defaults (λ s. 0) (λ s. true) (b't' ∷ []) [] b'm' (omega arith) (omega arith)
      (omega arith) refl

share_map-AllContain_example :
    (map : List (ℕ × ℕ)) × (heap : Heap) × (s : Shares) × (shared : List (List (List TraceInfo)))
    × (build_trace_containers plenty list_map [] [] traces ≡ ok (map, heap))
    × (share_map plenty (λ k. 7) list_map 2 3 map heap ≡ ok s)
    × AllContain s.tcs shared
    × (length shared ≡ 2)
    × (flat shared ≡ groups traces map)
share_map-AllContain_example =
    share_map-AllContain plenty (λ k. 7) list_map (λ bytes. refl) 2 traces (omega arith)
      (omega arith)
