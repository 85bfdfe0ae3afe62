-- ===== src/Tests/Running.antt =====
-- A whole run of the replayer on a small trace.
use gogeta_fs_ae.Common.{
  ℕ, ◌+◌, ◌%◌, ◌^◌, refl, inl, List, [], ◌∷◌, length, length-replicate, some, true, replicate,
  arith,
}
use gogeta_fs_ae.Trace.{TraceInfo}
use gogeta_fs_ae.Parse.{Scanner, hitsz, parse_line, set_ofs}
use gogeta_fs_ae.Parse.Traces.{Reads, at_end, counts, skips}
use gogeta_fs_ae.File.{count}
use gogeta_fs_ae.Worker.{Env, write_only}
use gogeta_fs_ae.Worker.Spec.{IsPlayable, AllPlayable}
use gogeta_fs_ae.Options.{Config, initial}
use gogeta_fs_ae.Replay.{Library}
use gogeta_fs_ae.Replay.Files.{Run, replay-files}
use gogeta_fs_ae.Tests.Data.{write_of, read_of, obliging}
use gogeta_fs_ae.Tests.Assigning.{list_map, counter}

-- The length of a line is its sector.
abbrev by_length : Scanner
by_length = record {
  scan_fiu = λ line old. (old, 0);
  scan_hitsz = λ line old. (write_of 1 (length line % 16) b'a', 4);
}

abbrev tolerant : Env
tolerant = record obliging { answers = λ k. count (2 ^ 42 + 1) }

abbrev small_library : Library
small_library = record {
  sscanf = by_length;
  malloc_infos = λ n. some (replicate n (read_of 0 0));
  realloc = λ bytes. true;
  malloc = λ size. replicate size 0;
  rand = λ i. i;
  rand_r = λ s. (s + 1, s);
  mt = counter;
  hm = list_map;
  envs = λ i. tolerant;
}

abbrev two_threads : Config
two_threads = record initial { trace_format_type = hitsz; threads = 2 }

abbrev three_lines : List (List ℕ)
three_lines = (1 ∷ 10 ∷ []) ∷ (1 ∷ 2 ∷ 10 ∷ []) ∷ (5 ∷ 10 ∷ []) ∷ []

line-IsPlayable :
    (line : List ℕ) (old : TraceInfo)
    → IsPlayable (parse_line by_length hitsz write_only line old).0
unfolding parse_line set_ofs
line-IsPlayable line old = record { digest = inl refl; sector = omega arith; small = omega arith }

lines-AllPlayable :
    {lines : List (List ℕ)} {l : List TraceInfo}
    → Reads by_length hitsz write_only lines l
    → AllPlayable l
lines-AllPlayable at_end = tt
lines-AllPlayable (counts line stripped old e h r) =
    (line-IsPlayable stripped old, lines-AllPlayable r)
lines-AllPlayable (skips line stripped old e h r) = lines-AllPlayable r

replay-files_example : Run small_library two_threads tt tt three_lines
replay-files_example =
    replay-files small_library two_threads tt tt three_lines
      (record {
        cells = replicate 3 (read_of 0 0);
        found = refl;
        sized = refl;
        grows = λ bytes. refl;
        gives = λ size. length-replicate size 0;
      })
      (record {
        opens = λ i. refl;
        dumps = λ i. refl;
        completes = λ i k. (2 ^ 42, refl, omega arith);
      })
      (λ st st' s. refl) (omega arith, (omega arith, (omega arith, tt))) (omega arith) (omega arith)
      (λ infos reads. lines-AllPlayable reads)
