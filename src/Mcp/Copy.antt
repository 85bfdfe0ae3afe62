-- ===== src/Mcp/Copy.antt =====
-- mcp/src/main.cpp: writen and cp_func, the work of one thread. A source descriptor stands for the
-- bytes that are still to be read from it, a destination for those that were written. The answers to
-- the system calls are a stream of transfer counts, of which `calls` are used up.
pub mod Whole
pub mod Nothing
use gogeta_fs_ae.Common.{
  ℕ, zero, suc, ◌+◌, ◌-◌, Bool, true, false, List, [], ◌∷◌, ◌++◌, ◌==◌, length, take, drop, min,
  Result, ok, err, exited, out_of_fuel, ◌>>=◌, update, if◌then◌else◌,
}
use gogeta_fs_ae.File.{Answer, count, failed}

-- The files behind the descriptors.
pub record Files : Type 0 where
  pub src : ℕ → List ℕ
  pub dst : ℕ → List ℕ

module _ (answers : ℕ → Answer) where
  -- `while (n) { ret = write(fd, buf, n); ... }`: the file and the calls made at its end.
  unfoldable pub writen : ℕ → (calls : ℕ) → (file bytes : List ℕ) → Result (List ℕ × ℕ)
  writen zero calls file bytes = err out_of_fuel
  writen (suc f) calls file [] = ok (file, calls)
  writen (suc f) calls file (b ∷ bytes) = elim (answers calls) [
    | failed ↦ err (exited 1)
    | count n ↦
        let ret : ℕ = min n (length (b ∷ bytes)) in
        writen f (suc calls) (file ++ take ret (b ∷ bytes)) (drop ret (b ∷ bytes))
  ]

  module _ (buf_len : ℕ) where
    -- `while (1)`: the source to its end, the destination and the calls.
    unfoldable pub copy_loop : ℕ → (calls : ℕ) → (src dst : List ℕ) → Result (List ℕ × List ℕ × ℕ)
    copy_loop zero calls src dst = err out_of_fuel
    copy_loop (suc f) calls src dst = elim (answers calls) [
      | failed ↦ err (exited 1)
      | count n ↦
          let ret : ℕ = min n (min buf_len (length src)) in
          elim (ret == 0) [
            | true ↦ ok (src, dst, suc calls)
            | false ↦ do
              (dst', calls') ← writen (suc ret) (suc calls) dst (take ret src)
              copy_loop f calls' (drop ret src) dst'
          ]
    ]

    -- `close`, whose failure ends the program.
    unfoldable pub close_fd : (calls : ℕ) → Result ℕ
    close_fd calls = elim (answers calls) [ failed ↦ err (exited 1) | count n ↦ ok (suc calls) ]

    -- The body of the loop over the jobs.
    unfoldable pub copy_job : Files → (calls : ℕ) → (job : ℕ × ℕ) → Result (Files × ℕ)
    copy_job files calls job = do
      let src = files.src job.0
      (src', dst', calls') ← copy_loop (suc (length src)) calls src (files.dst job.1)
      closed ← close_fd calls'
      closed' ← close_fd closed
      ok (record { src = update files.src job.0 src'; dst = update files.dst job.1 dst' }, closed')

    unfoldable pub copy_jobs : Files → (calls : ℕ) → List (ℕ × ℕ) → Result (Files × ℕ)
    copy_jobs files calls [] = ok (files, calls)
    copy_jobs files calls (job ∷ jobs) = do
      (files', calls') ← copy_job files calls job
      copy_jobs files' calls' jobs

-- `malloc_succeeds` says whether the buffer is there.
unfoldable pub cp_func :
    (ℕ → Answer) → (buf_len : ℕ) → (malloc_succeeds : Bool) → Files → List (ℕ × ℕ) → Result Files
cp_func answers buf_len malloc_succeeds files jobs =
    if malloc_succeeds
    then (copy_jobs answers buf_len files 0 jobs >>= λ done. ok done.0)
    else err (exited 1)
