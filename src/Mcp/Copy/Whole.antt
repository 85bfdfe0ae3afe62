-- ===== src/Mcp/Copy/Whole.antt =====
-- A thread copies its files byte by byte, however the system splits the transfers.
use gogeta_fs_ae.Common.{
  ℕ, zero, suc, ◌≤◌, ◌<◌, ◌≡◌, ◌≢◌, refl, ap, sym, ◌∙◌, true, false, List, [], ◌∷◌, ◌++◌,
  append-nil, append_assoc, All, Pairs, ◌==◌, length, length-take, length-drop, take, drop,
  take-append-drop, min, ok, ◌>>=◌, >>=-ok, update, update-other, update-same, arith,
}
use gogeta_fs_ae.File.{Answer, count}
use gogeta_fs_ae.Mcp.Copy.{Files, writen, copy_loop, close_fd, copy_job, copy_jobs, cp_func}

module _ (answers : ℕ → Answer) where
  -- No call fails, and each transfers at least a byte where there is one.
  abbrev pub Progresses : Type 0
  Progresses = (k : ℕ) → (n : ℕ) × (answers k ≡ count (suc n))

  module _ (progress : Progresses) where
    writen-step :
        (f calls : ℕ) (file bytes : List ℕ) (b n : ℕ)
        → answers calls ≡ count (suc n)
        → let ret : ℕ = min (suc n) (length (b ∷ bytes)) in
          writen answers (suc f) calls file (b ∷ bytes)
          ≡ writen answers f (suc calls) (file ++ take ret (b ∷ bytes)) (drop ret (b ∷ bytes))
    unfolding writen
    writen-step f calls file bytes b n e = rw (writen, e)

    writen-all :
        (f calls : ℕ) (file bytes : List ℕ)
        → length bytes < f
        → (calls' : ℕ) × (writen answers f calls file bytes ≡ ok (file ++ bytes, calls'))
    unfolding writen
    writen-all zero calls file bytes h = absurd (omega (arith, h))
    writen-all (suc f) calls file [] h = (calls, ap (λ l. ok (l, calls)) (sym (append-nil file)))
    writen-all (suc f) calls file (b ∷ bytes) h =
        let (n, e) = progress calls in
        let ret : ℕ = min (suc n) (length (b ∷ bytes)) in
        let all = b ∷ bytes in
        let (calls', done) =
          writen-all f (suc calls) (file ++ take ret all) (drop ret all)
            (omega (arith, h, length-drop ret all)) in
        (
          calls',
          writen-step f calls file bytes b n e
              ∙ done
              ∙ ap (λ l. ok (l, calls'))
                  (append_assoc file (take ret all) (drop ret all)
                    ∙ ap (λ l. file ++ l) (take-append-drop ret all)),
        )

    module _ (buf_len : ℕ) where
      pub copy_loop-end :
          (f calls : ℕ) (src dst : List ℕ)
          → min buf_len (length src) ≡ 0
          → copy_loop answers buf_len (suc f) calls src dst ≡ ok (src, dst, suc calls)
      unfolding copy_loop
      copy_loop-end f calls src dst none =
          let (n, e) = progress calls in
          let test : (min (suc n) (min buf_len (length src)) == 0) ≡ true = ground (arith, none) in
          rw (copy_loop, e) (rw test)

      copy_loop-step :
          (f calls n : ℕ) (src dst : List ℕ)
          → answers calls ≡ count (suc n)
          → 1 ≤ buf_len
          → 1 ≤ length src
          → let ret : ℕ = min (suc n) (min buf_len (length src)) in
            copy_loop answers buf_len (suc f) calls src dst ≡ (
              writen answers (suc ret) (suc calls) dst (take ret src) >>= λ r.
              copy_loop answers buf_len f r.1 (drop ret src) r.0)
      unfolding copy_loop
      copy_loop-step f calls n src dst e some_room more =
          let test : (min (suc n) (min buf_len (length src)) == 0) ≡ false =
            ground (arith, some_room, more) in
          rw (copy_loop, e) (rw test)

      copy_loop-all :
          (f calls : ℕ) (src dst : List ℕ)
          → 1 ≤ buf_len
          → length src < f
          → (calls' : ℕ) × (copy_loop answers buf_len f calls src dst ≡ ok ([], dst ++ src, calls'))
      copy_loop-all zero calls src dst some_room h = absurd (omega (arith, h))
      copy_loop-all (suc f) calls [] dst some_room h = (
        suc calls,
        copy_loop-end f calls [] dst (omega arith)
            ∙ ap (λ l. ok ([], l, suc calls)) (sym (append-nil dst)),
      )
      copy_loop-all (suc f) calls (b ∷ src) dst some_room h =
          let (n, e) = progress calls in
          let all = b ∷ src in
          let ret : ℕ = min (suc n) (min buf_len (length all)) in
          let (calls₁, e₁) =
            writen-all (suc ret) (suc calls) dst (take ret all)
              (omega (arith, length-take ret all)) in
          let (calls₂, e₂) =
            copy_loop-all f calls₁ (drop ret all) (dst ++ take ret all) some_room
              (omega (arith, h, some_room, length-drop ret all)) in
          (
            calls₂,
            copy_loop-step f calls n all dst e some_room (omega arith)
                ∙ >>=-ok _ e₁
                ∙ e₂
                ∙ ap (λ l. ok ([], l, calls₂))
                    (append_assoc dst (take ret all) (drop ret all)
                      ∙ ap (λ l. dst ++ l) (take-append-drop ret all)),
          )

      pub close_fd-ok : (calls : ℕ) → close_fd answers buf_len calls ≡ ok (suc calls)
      unfolding close_fd
      close_fd-ok calls = let (n, e) = progress calls in rw (close_fd, e)

-- Two jobs, and all of them, use different descriptors.
abbrev pub Apart : ℕ × ℕ → ℕ × ℕ → Type 0
Apart job j = (j.0 ≢ job.0) × (j.1 ≢ job.1)

abbrev pub Separate : List (ℕ × ℕ) → Type 0
Separate = Pairs Apart

-- After the jobs each destination has the bytes of its source behind what it had.
abbrev pub Copied : Files → Files → List (ℕ × ℕ) → Type 0
Copied files files' = All (λ job. files'.dst job.1 ≡ files.dst job.1 ++ files.src job.0)

-- Jobs of other descriptors see the same files.
Copied-update :
    (files files' : Files) (job : ℕ × ℕ) (src dst : List ℕ) (jobs : List (ℕ × ℕ))
    → All (Apart job) jobs
    → Copied
        (record { src = update files.src job.0 src; dst = update files.dst job.1 dst })
        files'
        jobs
    → Copied files files' jobs
Copied-update files files' job src dst [] s c = tt
Copied-update files files' job src dst (j ∷ jobs) s c = (
  c.0
      ∙ ap (λ l. l ++ update files.src job.0 src j.0) (update-other files.dst job.1 j.1 dst s.0.1)
      ∙ ap (λ l. files.dst j.1 ++ l) (update-other files.src job.0 j.0 src s.0.0),
  Copied-update files files' job src dst jobs s.1 c.1,
)

apart : (job : ℕ × ℕ) (jobs : List (ℕ × ℕ)) → All (Apart job) jobs → All (λ j. job.1 ≢ j.1) jobs
apart job [] s = tt
apart job (j ∷ jobs) s = ((λ e. s.0.1 (sym e)), apart job jobs s.1)

module _ (answers : ℕ → Answer) (progress : Progresses answers) (buf_len : ℕ) where
  copy_job-ok :
      (files : Files) (calls : ℕ) (job : ℕ × ℕ)
      → 1 ≤ buf_len
      → (calls' : ℕ) × (copy_job answers buf_len files calls job
          ≡ ok (
            record {
              src = update files.src job.0 [];
              dst = update files.dst job.1 (files.dst job.1 ++ files.src job.0);
            },
            calls',
          ))
  unfolding copy_job
  copy_job-ok files calls job some_room =
      let src = files.src job.0 in
      let (calls₁, e₁) =
        copy_loop-all answers progress buf_len (suc (length src)) calls src (files.dst job.1)
          some_room (omega arith) in
      (
        suc (suc calls₁),
        >>=-ok _ e₁
            ∙ >>=-ok _ (close_fd-ok answers progress buf_len calls₁)
            ∙ >>=-ok _ (close_fd-ok answers progress buf_len (suc calls₁)),
      )

  copy_jobs-Copied :
      (files : Files) (calls : ℕ) (jobs : List (ℕ × ℕ))
      → 1 ≤ buf_len
      → Separate jobs
      → (files' : Files) × (calls' : ℕ) × (copy_jobs answers buf_len files calls jobs
          ≡ ok (files', calls'))
        × Copied files files' jobs
        × ((fd : ℕ) → All (λ job. fd ≢ job.1) jobs → files'.dst fd ≡ files.dst fd)
  unfolding copy_jobs
  copy_jobs-Copied files calls [] some_room s = (files, calls, refl, tt, λ fd a. refl)
  copy_jobs-Copied files calls (job ∷ jobs) some_room s =
      let file = files.dst job.1 ++ files.src job.0 in
      let files₁ : Files = record {
        src = update files.src job.0 [];
        dst = update files.dst job.1 file;
      } in
      let (calls₁, e₁) = copy_job-ok files calls job some_room in
      let (files₂, calls₂, e₂, copied, others) =
        copy_jobs-Copied files₁ calls₁ jobs some_room s.1 in
      (
        files₂,
        calls₂,
        >>=-ok _ e₁ ∙ e₂,
        (
          others job.1 (apart job jobs s.0) ∙ update-same files.dst job.1 file,
          Copied-update files files₂ job [] file jobs s.0 copied,
        ),
        λ fd a. others fd a.1 ∙ update-other files.dst job.1 fd file a.0,
      )

  -- With a buffer of at least a byte and jobs of different descriptors a thread copies every file
  -- whole, whatever the sizes of the transfers are, if no call fails and each transfers at least a
  -- byte where there is one: each destination has the bytes of its source behind what it had, and any
  -- file `fd` that is no destination is left as it was.
  pub cp_func-Copied :
      (files : Files) (jobs : List (ℕ × ℕ)) (fd : ℕ)
      → 1 ≤ buf_len
      → Separate jobs
      → All (λ job. fd ≢ job.1) jobs
      → (files' : Files) × (cp_func answers buf_len true files jobs ≡ ok files')
        × Copied files files' jobs
        × (files'.dst fd ≡ files.dst fd)
  unfolding cp_func
  cp_func-Copied files jobs fd some_room s other =
      let (files', calls', e, copied, others) = copy_jobs-Copied files 0 jobs some_room s in
      (files', >>=-ok _ e, copied, others fd other)
