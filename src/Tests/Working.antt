-- ===== src/Tests/Working.antt =====
-- The worker.
use gogeta_fs_ae.Common.{
  ℕ, ◌≡◌, inr, refl, [], ◌∷◌, ◌++◌, none, true, false, length, take, drop, ok, err, exited, arith,
  replicate,
}
use gogeta_fs_ae.File.{count}
use gogeta_fs_ae.Worker.{
  Env, WorkerState, read_write, opened, replay_worker, read_hint, write_hint, append_hint, char_w,
}
use gogeta_fs_ae.Worker.Spec.{replayed}
use gogeta_fs_ae.Worker.Reads.{zero_filled, read_hint-zero_filled}
use gogeta_fs_ae.Worker.Hint.{hint-short}
use gogeta_fs_ae.Worker.Replays.{replay_worker-replays}
use gogeta_fs_ae.Tests.Data.{
  played, played_hints, playable, played-Covers, played_param, obliging, hint, write_of, read_of,
}

replay_worker-replays_example :
    (s : WorkerState ℕ) × (replay_worker obliging false played_param ≡ ok s)
    × (s.file ≡ replayed {Ctx = ℕ} none 0 read_write (opened none) played)
replay_worker-replays_example =
    replay_worker-replays obliging false played_param 0 tt (λ k. (1000000, refl, omega arith)) 4 2
      played_hints (refl, (refl, tt)) refl played-Covers (omega arith, (omega arith, tt))
      (omega arith) playable refl refl

abbrev fresh : WorkerState ℕ
fresh = record { file = []; buf = replicate 8192 0; ctx = 0; dump = []; calls = 0 }

-- A kernel that transfers 4096 bytes of the 8192.
abbrev stingy : Env
stingy = record obliging { answers = λ k. count 4096 }

hint-short_example :
    (write_hint stingy false played_param (hint 0 2 char_w) fresh ≡ err (exited 1))
    × (append_hint stingy false played_param (hint 0 2 char_w) fresh ≡ err (exited 1))
hint-short_example =
    hint-short stingy false played_param 0 tt (hint 0 2 char_w) fresh (write_of 1 0 b'a')
      (write_of 2 8 b'b' ∷ []) (refl, (refl, tt)) (playable.0, (playable.1.0, tt)) refl
      (omega arith) (omega arith) (inr (4096, refl, omega arith))

-- The read of the third trace, from a file of one block.
abbrev one_block : WorkerState ℕ
one_block = record fresh { file = replicate 4100 1 }

read_hint-zero_filled_example :
    let bytes = zero_filled (drop 4096 (replicate 4100 1)) 4096 in
    (s' : WorkerState ℕ) × (read_hint stingy true played_param (hint 2 1 b'R') one_block ≡ ok s')
    × (s'.file ≡ replicate 4100 1)
    × (take 4096 s'.buf ≡ bytes)
    × (s'.dump ≡ [] ++ bytes)
    × (length s'.buf ≡ 8192)
read_hint-zero_filled_example =
    read_hint-zero_filled stingy true played_param (λ k. (4095, refl)) (hint 2 1 b'R') one_block
      (read_of 3 8) refl (omega arith)
