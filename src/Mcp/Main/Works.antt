-- ===== src/Mcp/Main/Works.antt =====
-- The descriptors of the files that were opened.
use gogeta_fs_ae.Common.{
  ℕ, suc, ◌<◌, ◌≡◌, ◌≢◌, refl, ap, sym, subst, Bool, true, false, some, List, [], ◌∷◌, ◌++◌, map,
  All, All-append, arith,
}
use gogeta_fs_ae.Mcp.Jobs.Rounds.{fds}
use gogeta_fs_ae.Mcp.Copy.Whole.{Apart, Separate}
use gogeta_fs_ae.Mcp.Tree.{
  FilePath, Node, reg, lnk, dir, other, Entries, end_of_dir, entry, Opened, is_dot,
}
use gogeta_fs_ae.Mcp.Tree.Places.{unless_dot, files_in, files_of}
use gogeta_fs_ae.Mcp.Threads.{Job}
use gogeta_fs_ae.Mcp.Main.{dst_fd_of, works_of}

-- The destinations of the files opened.
abbrev pub Placed : List Opened → Type 0
Placed = All (λ o. (d : FilePath) × (o.dst ≡ some d))

unless_dot-Placed : (b : Bool) (l : List Opened) → Placed l → Placed (unless_dot b l)
unless_dot-Placed true l p = tt
unless_dot-Placed false l p = p

mutual
  unfolding files_in

  pub files_in-Placed : (src dst : FilePath) (es : Entries) → Placed (files_in src dst es)
  files_in-Placed src dst end_of_dir = tt
  files_in-Placed src dst (entry name node rest) =
      All-append _ (unless_dot (is_dot name) (files_of (src ++ name ∷ []) (dst ++ name ∷ []) node))
        (files_in src dst rest)
        (unless_dot-Placed (is_dot name) (files_of (src ++ name ∷ []) (dst ++ name ∷ []) node)
          (files_of-Placed (src ++ name ∷ []) (dst ++ name ∷ []) node))
        (files_in-Placed src dst rest)

  files_of-Placed : (src dst : FilePath) (node : Node) → Placed (files_of src dst node)
  files_of-Placed src dst (reg size) = ((dst, refl), tt)
  files_of-Placed src dst (lnk text) = tt
  files_of-Placed src dst (dir es) = files_in-Placed src dst es
  files_of-Placed src dst other = tt

module _ (fd_pair : ℕ → Job) where
  -- A property of every file and its number.
  abbrev pub Numbered : (ℕ → Opened → Type 0) → ℕ → List Opened → Type 0
  Numbered P k [] = Unit
  Numbered P k (o ∷ files) = P k o × Numbered P (suc k) files

  abbrev pub AllDiffer : Type 0
  AllDiffer = (i j : ℕ) → i ≢ j → Apart (fd_pair i) (fd_pair j)

  fds-at :
      (k : ℕ) (o : Opened) {d : FilePath}
      → o.dst ≡ some d
      → ((fd_pair k).0, dst_fd_of o.dst (fd_pair k).1) ≡ fd_pair k
  unfolding dst_fd_of
  fds-at k o e = ap (λ x. ((fd_pair k).0, dst_fd_of x (fd_pair k).1)) e

  module _ (differ : AllDiffer) where
    works_of-Apart :
        (i k : ℕ) (files : List Opened)
        → i < k
        → Placed files
        → All (Apart (fd_pair i)) (map fds (works_of fd_pair k files))
    unfolding works_of
    works_of-Apart i k [] lt p = tt
    works_of-Apart i k (o ∷ files) lt p = (
      subst (Apart (fd_pair i)) (sym (fds-at k o p.0.1)) (differ i k (λ e. omega (arith, e, lt))),
      works_of-Apart i (suc k) files (omega (arith, lt)) p.1,
    )

    pub works_of-Separate :
        (k : ℕ) (files : List Opened) → Placed files → Separate (map fds (works_of fd_pair k files))
    unfolding works_of
    works_of-Separate k [] p = tt
    works_of-Separate k (o ∷ files) p = (
      subst (λ job. All (Apart job) (map fds (works_of fd_pair (suc k) files)))
          (sym (fds-at k o p.0.1)) (works_of-Apart k (suc k) files (omega arith) p.1),
      works_of-Separate (suc k) files p.1,
    )

  pub works_of-Numbered :
      (P : Job → Type 0) (k : ℕ) (files : List Opened)
      → Placed files
      → All (λ work. P (fds work)) (works_of fd_pair k files)
      → Numbered (λ j o. P (fd_pair j)) k files
  unfolding works_of
  works_of-Numbered P k [] p a = tt
  works_of-Numbered P k (o ∷ files) p a =
      (subst P (fds-at k o p.0.1) a.0, works_of-Numbered P (suc k) files p.1 a.1)
