-- ===== src/Mcp/Main.antt =====
-- mcp/src/main.cpp: main up to its threads: the two directories are opened, the source is traversed
-- and its files are assigned. basename, atoi, std::sort and the descriptors that open gives are
-- parameters; the number of threads is not negative. The prints and the clock are not modelled.
pub mod Works
pub mod Whole
use gogeta_fs_ae.Common.{
  ℕ, suc, ◌+◌, ◌-◌, ◌^◌, not, Option, none, some, List, [], ◌∷◌, ◌++◌, ltb, Result, ok, err, exited,
  ◌>>=◌, ◌>>◌, if◌then◌else◌,
}
use gogeta_fs_ae.Mcp.Jobs.{FileWork, Plan, plan_jobs}
use gogeta_fs_ae.Mcp.Tree.{
  Name, FilePath, Entries, made, exists, refused, System, Opened, Walk, exit_on, make_dir, cp_dir,
}

-- What the first `open(argv[2])` says: the directory is there, errno is ENOENT, or it is another.
pub data Destination : Type 0 where
  present missing unusable : Destination

-- The arguments; `buf_bytes` is argv[4].
pub record Args : Type 0 where
  pub src_dir : FilePath
  pub dst_dir : FilePath
  pub thread_num : ℕ
  pub buf_bytes : Option (List ℕ)

-- `buf_len`: an int that becomes a size_t keeps its sign.
unfoldable pub buf_len_of : (List ℕ → ℕ) → Args → ℕ
buf_len_of atoi args = elim args.buf_bytes [
  | none ↦ 4096
  | some s ↦ let i : ℕ = atoi s in if ltb i (2 ^ 31) then i else i + (2 ^ 64 - 2 ^ 32)
]

-- A destination that does not open has the descriptor -1.
unfoldable pub dst_fd_of : Option FilePath → ℕ → ℕ
dst_fd_of none fd = 2 ^ 32 - 1
dst_fd_of (some d) fd = fd

-- `files.emplace_back(statbuf.st_size, src_fd, dst_fd)`, for the files from the one of number `k`,
-- whose descriptors are `fds k`.
unfoldable pub works_of : (fds : ℕ → ℕ × ℕ) → (k : ℕ) → List Opened → List FileWork
works_of fds k [] = []
works_of fds k (o ∷ files) =
    record { size = o.size; src_fd = (fds k).0; dst_fd = dst_fd_of o.dst (fds k).1 }
    ∷ works_of fds (suc k) files

module _ (sys : System) (fuel : ℕ) (stale : List ℕ) (first_open : FilePath → Destination)
    (basename : FilePath → Name) where
  -- The destination, opened. A directory that is there gets the source's directory in it.
  unfoldable pub open_destination : Args → Walk → Result (FilePath × Walk)
  open_destination args w = elim (first_open args.dst_dir) [
    | unusable ↦ err (exited 1)
    | missing ↦ elim (sys.mkdir_answer args.dst_dir) [
      | made ↦ do
        exit_on (not (sys.open_dst args.dst_dir))
        ok (args.dst_dir, record w { dirs = w.dirs ++ args.dst_dir ∷ [] })
      | exists ↦ err (exited 1)
      | refused ↦ err (exited 1)
    ]
    | present ↦ do
      w' ← make_dir sys fuel stale (basename args.src_dir) (some args.dst_dir) w
      exit_on (not (sys.open_dst (args.dst_dir ++ basename args.src_dir ∷ [])))
      ok (args.dst_dir ++ basename args.src_dir ∷ [], w')
  ]

  -- `cwd` is the working directory at the start, and `tree` what the source holds.
  unfoldable pub traverse : Args → (cwd : FilePath) → (tree : Entries) → Result Walk
  traverse args cwd tree = do
    exit_on (not (sys.open_src args.src_dir))
    (dst, w) ← open_destination args (record { cwd = cwd; files = []; links = []; dirs = [] })
    exit_on (sys.chdir_fails args.src_dir)
    cp_dir sys fuel stale tree (some dst) (record w { cwd = args.src_dir })

  unfoldable pub prepare :
      (sort : List FileWork → List FileWork) (fds : ℕ → ℕ × ℕ)
      → Args
      → (cwd : FilePath) → (tree : Entries) → Result (Walk × Plan)
  prepare sort fds args cwd tree = do
    w ← traverse args cwd tree
    plan ← plan_jobs sort args.thread_num (works_of fds 0 w.files)
    ok (w, plan)
