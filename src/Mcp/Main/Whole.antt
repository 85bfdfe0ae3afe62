-- ===== src/Mcp/Main/Whole.antt =====
-- The whole program: every regular file below the source directory is copied.
use mathlib.Core.List.{Perm}
use gogeta_fs_ae.Common.{
  ℕ, ◌^◌, ◌≤◌, ◌<◌, ◌≡◌, refl, ap, sym, subst, ◌∙◌, not, List, [], ◌∷◌, ◌++◌, map, flat, length,
  Result, ok, >>=-ok, append-nil,
}
use gogeta_fs_ae.Mcp.Jobs.{FileWork, Plan, plan_jobs}
use gogeta_fs_ae.Mcp.Jobs.Rounds.{fds, bytes}
use gogeta_fs_ae.Mcp.Copy.{Files}
use gogeta_fs_ae.Mcp.Tree.{Name, FilePath, Entries, made, Opened, Walk, exit_on, cp_dir}
use gogeta_fs_ae.Mcp.Tree as Tree
use gogeta_fs_ae.Mcp.Tree.Places.{files_in, links_in, Works, FitIn, make_dir-ok, cp_dir-Visited}
use gogeta_fs_ae.Mcp.Threads.{Job, returned, System, Reach}
use gogeta_fs_ae.Mcp.Threads.Planned.{plan_jobs-Perm, plan_jobs-Copied}
use gogeta_fs_ae.Mcp.Main.{
  Destination, present, missing, unusable, Args, buf_len_of, works_of, open_destination, traverse,
  prepare,
}
use gogeta_fs_ae.Mcp.Main.Works.{
  files_in-Placed, Numbered, AllDiffer, works_of-Separate, works_of-Numbered,
}

module _ (sys : Tree.System) (fuel : ℕ) (stale : List ℕ) (first_open : FilePath → Destination)
    (basename : FilePath → Name) where
  -- The destination directory can be opened; where it is missing, it can be made.
  abbrev pub Usable : Args → Destination → Type 0
  Usable args present = Unit
  Usable args missing = sys.mkdir_answer args.dst_dir ≡ made
  Usable args unusable = ⊥

  -- The copy's directory.
  abbrev pub destination : Args → Destination → FilePath
  destination args present = args.dst_dir ++ basename args.src_dir ∷ []
  destination args missing = args.dst_dir
  destination args unusable = args.dst_dir

  module _ (good : Works sys) (args : Args) where
    open_destination-ok :
        (w : Walk) (a : Destination)
        → first_open args.dst_dir ≡ a
        → Usable args a
        → (w' : Walk) × (open_destination sys fuel stale first_open basename args w
            ≡ ok (destination args a, w'))
          × (w'.files ≡ w.files)
          × (w'.links ≡ w.links)
    unfolding open_destination
    open_destination-ok w present e usable =
        let (w', e', v) = make_dir-ok sys fuel stale good (basename args.src_dir) args.dst_dir w in
        (
          w',
          rw (open_destination, e)
              (>>=-ok _ e'
                ∙ >>=-ok _ (
                    ap (λ b. exit_on (not b))
                      (good.opens_dst (args.dst_dir ++ basename args.src_dir ∷ [])))),
          v.files ∙ append-nil w.files,
          v.links ∙ append-nil w.links,
        )
    open_destination-ok w missing e usable = (
      record w { dirs = w.dirs ++ args.dst_dir ∷ [] },
      rw (open_destination, e)
          (rw usable (>>=-ok _ (ap (λ b. exit_on (not b)) (good.opens_dst args.dst_dir)))),
      refl,
      refl,
    )
    open_destination-ok w unusable e usable = absurd usable

    module _ (tree : Entries) (fits : FitIn sys fuel stale tree)
        (usable : Usable args (first_open args.dst_dir)) where
      abbrev pub target : FilePath
      target = destination args (first_open args.dst_dir)

      -- The files and the links below the source were opened and made.
      pub record Traversed (w : Walk) : Type 0 where
        pub files : w.files ≡ files_in args.src_dir target tree
        pub links : w.links ≡ links_in target tree

      traverse-ok :
          (cwd : FilePath)
          → (w : Walk) × (traverse sys fuel stale first_open basename args cwd tree ≡ ok w)
            × Traversed w
      unfolding traverse
      traverse-ok cwd =
          let before : Walk = record { cwd = cwd; files = []; links = []; dirs = [] } in
          let (w, e, files, links) =
            open_destination-ok before (first_open args.dst_dir) refl usable in
          let (w', e', v) =
            cp_dir-Visited sys fuel stale good tree target (record w { cwd = args.src_dir }) fits in
          (
            w',
            >>=-ok _ (ap (λ b. exit_on (not b)) (good.opens_src args.src_dir))
                ∙ >>=-ok _ e
                ∙ >>=-ok _ (ap exit_on (good.changes_dir args.src_dir))
                ∙ e',
            record {
              files = v.files ∙ ap (λ l. l ++ files_in args.src_dir target tree) files;
              links = v.links ∙ ap (λ l. l ++ links_in target tree) links;
            },
          )

      module _ (sort : List FileWork → List FileWork) (fd_pair : ℕ → Job) (cwd : FilePath) where
        -- The files of the source directory with their descriptors.
        abbrev pub works : List FileWork
        works = works_of fd_pair 0 (files_in args.src_dir target tree)

        abbrev pub prepared : Result (Walk × Plan)
        prepared = prepare sys fuel stale first_open basename sort fd_pair args cwd tree

        -- If no call of the traversal fails, every link is copied with its text and the destination can be
        -- opened or made, with at least one thread, files of less than 2 ^ 64 bytes in all and a sort that reorders them:
        -- main opens every regular file below the source directory, in order and by its path, with its copy
        -- in the destination, or in a directory of the source's name there if the destination was there
        -- before; it makes the links; and every file's descriptors are the job of one of the threads.
        pub prepare-plans :
            ((l : List FileWork) → Perm (sort l) l)
            → 1 ≤ args.thread_num
            → bytes (sort works) < 2 ^ 64
            → (w : Walk) × (plan : Plan) × (prepared ≡ ok (w, plan))
              × Traversed w
              × (length plan.jobs ≡ args.thread_num)
              × Perm (flat plan.jobs) (map fds works)
        unfolding prepare
        prepare-plans sorts some_thread small =
            let (w, e, v) = traverse-ok cwd in
            let (plan, e', threads, perm) =
              plan_jobs-Perm sort args.thread_num works sorts some_thread small in
            let same = ap (λ l. plan_jobs sort args.thread_num (works_of fd_pair 0 l)) v.files in
            (w, plan, >>=-ok _ e ∙ >>=-ok _ (same ∙ e'), v, threads, perm)

        -- If no call of the traversal fails, every link is copied with its text and the destination can be
        -- opened or made, with at least one thread, files of less than 2 ^ 64 bytes in all, a sort that
        -- reorders them, descriptors that differ and a buffer of at least a byte: when main returns, in
        -- whatever order the threads took their steps and however the system splits the transfers, every
        -- regular file below the source directory was opened and is copied whole: its copy holds its bytes
        -- behind what it held.
        pub mcp-copies :
            {w : Walk} {plan : Plan} {n : ℕ} {s : System} (atoi : List ℕ → ℕ) (files : Files)
            → ((l : List FileWork) → Perm (sort l) l)
            → 1 ≤ args.thread_num
            → 1 ≤ buf_len_of atoi args
            → bytes (sort works) < 2 ^ 64
            → AllDiffer fd_pair
            → prepared ≡ ok (w, plan)
            → Reach (buf_len_of atoi args) files plan.jobs n s
            → s.phase ≡ returned
            → Traversed w
              × Numbered fd_pair
                  (λ k o.
                    s.files.dst (fd_pair k).1 ≡ files.dst (fd_pair k).1 ++ files.src (fd_pair k).0)
                  0
                  w.files
        unfolding prepare
        mcp-copies {w} {plan} {n} {s} atoi files sorts some_thread some_room small differ e r
              ended =
            let (w₁, e₁, v) = traverse-ok cwd in
            let same = ap (λ l. plan_jobs sort args.thread_num (works_of fd_pair 0 l)) v.files in
            let (plan', e', threads, perm) =
              plan_jobs-Perm sort args.thread_num works sorts some_thread small in
            let both : ok (w, plan) ≡ ok (w₁, plan') = sym e ∙ >>=-ok _ e₁ ∙ >>=-ok _ (same ∙ e') in
            let walk : w ≡ w₁ = cc both in
            let planned : plan ≡ plan' = cc both in
            let placed = files_in-Placed args.src_dir target tree in
            let all = files_in args.src_dir target tree in
            let copied =
              plan_jobs-Copied sort args.thread_num (buf_len_of atoi args) works files sorts
                some_thread some_room small (works_of-Separate fd_pair differ 0 all placed)
                (e' ∙ ap (λ p. ok p) (sym planned)) r ended in
            (
              subst Traversed (sym walk) v,
              subst
                  (Numbered fd_pair
                    (λ k o.
                      s.files.dst (fd_pair k).1
                      ≡ files.dst (fd_pair k).1 ++ files.src (fd_pair k).0)
                    0)
                  (sym (ap (λ x. x.files) walk ∙ v.files))
                  (works_of-Numbered fd_pair
                    (λ job. s.files.dst job.1 ≡ files.dst job.1 ++ files.src job.0) 0 all placed
                    copied),
            )
