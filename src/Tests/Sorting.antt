-- ===== src/Tests/Sorting.antt =====
-- The sort, the containers and the hints.
use gogeta_fs_ae.Common.{
  ℕ, ◌*◌, ◌≡◌, ◌≢◌, ◌⊎◌, refl, List, [], ◌∷◌, Bool, true, false, length, ok, err, exited, arith,
  ltb,
}
use gogeta_fs_ae.Trace.{TraceInfo}
use gogeta_fs_ae.Sort.{sort_infomap_by_ts}
use gogeta_fs_ae.Sort.Stable.{IsSorted, SameRuns}
use gogeta_fs_ae.Sort.Whole.{sort_infomap_by_ts-sorts}
use gogeta_fs_ae.Container.{
  TraceContainer, trace_container_create, trace_container_add, trace_container_add_collection,
}
use gogeta_fs_ae.Container.Contents.{
  Contains, Added, create-Contains, add-Contains, add_collection-Contains,
}
use gogeta_fs_ae.Hints.{Scan, extract_hints}
use gogeta_fs_ae.Hints.Cover.{Covers, AllWithin, extract_hints-Covers}
use gogeta_fs_ae.Tests.Data.{write_of, traces, played, played_hints}

sorted_traces :
    sort_infomap_by_ts traces ≡ ok (write_of 1 0 b'b' ∷ write_of 3 8 b'a' ∷ write_of 3 16 b'c' ∷ [])
unfolding sort_infomap_by_ts
sorted_traces = refl

sort_infomap_by_ts-sorts_example :
    (out : List TraceInfo) × (sort_infomap_by_ts traces ≡ ok out)
    × IsSorted out
    × SameRuns traces out
    × (length out ≡ 3)
sort_infomap_by_ts-sorts_example = sort_infomap_by_ts-sorts traces (omega arith) (omega arith)

played_runs :
    extract_hints 4 played
    ≡ ok (record { hints = played_hints; max_continuous = 2; consecutive_start = 3 })
unfolding extract_hints
played_runs = refl

extract_hints-Covers_example :
    (s : Scan) × (extract_hints 4 played ≡ ok s)
    × Covers 4 0 s.hints played
    × AllWithin s.max_continuous s.hints
extract_hints-Covers_example = extract_hints-Covers 4 played (omega arith)

-- realloc refuses more than 256 bytes.
abbrev tight : ℕ → Bool
tight bytes = ltb bytes 257

abbrev small_container : TraceContainer
small_container = trace_container_create 2 5

add-Contains_example :
    (((small_container.size ≢ small_container.capacity)
        ⊎ (tight (16 * small_container.capacity) ≡ true))
      × Added tight small_container (write_of 1 0 b'a') [])
    ⊎ ((small_container.size ≡ small_container.capacity)
        × (tight (16 * small_container.capacity) ≡ false)
        × (trace_container_add tight small_container (write_of 1 0 b'a') ≡ err (exited 1)))
add-Contains_example =
    add-Contains tight small_container (write_of 1 0 b'a') [] (create-Contains 2 5 (omega arith))
      (omega arith)

collection-test :
    (tc' : TraceContainer) × (trace_container_add_collection
        (λ bytes. true)
        small_container
        (trace_container_create 64 1)
      ≡ ok tc')
    × Contains tc' []
collection-test =
    add_collection-Contains (λ bytes. true) (λ bytes. refl) small_container
      (trace_container_create 64 1) [] [] (create-Contains 2 5 (omega arith))
      (create-Contains 64 1 (omega arith)) (omega arith)
