-- ===== src/Mcp/Copy/Nothing.antt =====
-- With a buffer of no bytes a thread copies nothing.
use gogeta_fs_ae.Common.{
  ℕ, suc, ◌≡◌, refl, ◌∙◌, true, List, [], ◌∷◌, length, ok, >>=-ok, ℕ_discrete, update, arith,
}
use gogeta_fs_ae.File.{Answer}
use gogeta_fs_ae.Mcp.Copy.{Files, copy_job, copy_jobs, cp_func}
use gogeta_fs_ae.Mcp.Copy.Whole.{Progresses, copy_loop-end, close_fd-ok}

module _ (answers : ℕ → Answer) (progress : Progresses answers) (buf_len : ℕ) where
  copy_jobs-nothing :
      (files : Files) (calls : ℕ) (jobs : List (ℕ × ℕ))
      → buf_len ≡ 0
      → (files' : Files) × (calls' : ℕ) × (copy_jobs answers buf_len files calls jobs
          ≡ ok (files', calls'))
        × ((fd : ℕ) → files'.dst fd ≡ files.dst fd)
  unfolding copy_jobs copy_job
  copy_jobs-nothing files calls [] none = (files, calls, refl, λ fd. refl)
  copy_jobs-nothing files calls (job ∷ jobs) none =
      let src = files.src job.0 in
      let dst = files.dst job.1 in
      let files₁ : Files = record {
        src = update files.src job.0 src;
        dst = update files.dst job.1 dst;
      } in
      let (files₂, calls₂, e₂, same) = copy_jobs-nothing files₁ (suc (suc (suc calls))) jobs none in
      (
        files₂,
        calls₂,
        >>=-ok _ (
              >>=-ok _ (
                copy_loop-end answers progress buf_len (length src) calls src dst
                  (omega (arith, none)))
              ∙ >>=-ok _ (close_fd-ok answers progress buf_len (suc calls))
              ∙ >>=-ok _ (close_fd-ok answers progress buf_len (suc (suc calls))))
            ∙ e₂,
        λ fd. same fd ∙ update-self files.dst job.1 fd,
      )
    where
      update-self : (f : ℕ → List ℕ) (fd k : ℕ) → update f fd (f fd) k ≡ f k
      update-self f fd k = elim (ℕ_discrete k fd) [
        | yes e ↦ ground (arith, e)
        | no ne ↦ ground (arith, ne)
      ]

  -- With a buffer of no bytes, as `mcp src dst 1 x` asks for, a thread ends well and copies nothing, if
  -- no call fails.
  pub cp_func-empty_buffer :
      (files : Files) (jobs : List (ℕ × ℕ))
      → buf_len ≡ 0
      → (files' : Files) × (cp_func answers buf_len true files jobs ≡ ok files')
        × ((fd : ℕ) → files'.dst fd ≡ files.dst fd)
  unfolding cp_func
  cp_func-empty_buffer files jobs none =
      let (files', calls', e, same) = copy_jobs-nothing files 0 jobs none in
      (files', >>=-ok _ e, same)
