-- ===== src/Interference/Main/Calls.antt =====
-- main, with a stage as its last option.
use gogeta_fs_ae.Common.{
  ℕ, ◌≡◌, refl, ◌∙◌, List, [], ◌∷◌, ◌++◌, Result, ok, ◌>>=◌, >>=-ok, >>=-each,
}
use gogeta_fs_ae.File.{Answer}
use gogeta_fs_ae.Interference.Main.{
  Config, initial, Opt, opt_s, set_option, set_options, RunCall, Stages, stages_of, make_task_list,
  main,
}

module _ (atoi atol : List ℕ → ℕ) where
  set_options-last :
      (c : Config) (opts : List Opt) (s : List ℕ)
      → set_options atoi atol c (opts ++ opt_s s ∷ [])
        ≡ (set_options atoi atol c opts >>= λ c'. ok (record c' { stage = atoi s }))
  unfolding set_options set_option
  set_options-last c [] s = refl
  set_options-last c (o ∷ opts) s =
      >>=-each (set_option atoi atol c o) (λ c₁. set_options atoi atol c₁ (opts ++ opt_s s ∷ []))
        (λ c₁. set_options atoi atol c₁ opts) (λ c'. ok (record c' { stage = atoi s }))
        (λ c₁. set_options-last c₁ opts s)

  module _ (malloc : (calls size : ℕ) → List ℕ) (answers : ℕ → Answer) (quarter : ℕ → ℕ) where
    abbrev pub behind : Config → Result Stages
    behind c = make_task_list malloc answers quarter c >>= λ (call : RunCall).
        ok (stages_of malloc answers quarter c.stage call)

    pub main-last :
        (opts : List Opt) (s : List ℕ) {c : Config}
        → set_options atoi atol initial opts ≡ ok c
        → main malloc answers quarter atoi atol (opts ++ opt_s s ∷ [])
          ≡ behind (record c { stage = atoi s })
    unfolding main
    main-last opts s e = >>=-ok _ (set_options-last initial opts s ∙ >>=-ok _ e)
