-- ===== src/Mcp/Tree.antt =====
-- mcp/src/main.cpp: handle_regular_file and cp_dir, the traversal of the source directory. A path is
-- the list of its names from the root. The calls work on names relative to the working directory,
-- `cwd`, and to the destination's descriptor, which stands for the path that it was opened by, with
-- `none` for -1. Which calls fail is a parameter.
pub mod Places
use gogeta_fs_ae.Common.{
  ℕ, zero, suc, Bool, true, false, ◌&&◌, ◌||◌, not, Option, none, some, List, [], ◌∷◌, ◌++◌, ◌==◌,
  Result, ok, err, exited, out_of_bounds, ◌>>=◌, ◌>>◌, if◌then◌else◌,
}
use gogeta_fs_ae.Mcp.Link.{handle_symbolic_link}

abbrev pub Name : Type 0
Name = List ℕ

abbrev pub FilePath : Type 0
FilePath = List Name

-- What readdir gives for a directory, in its order.
mutual
  pub data Node : Type 0 where
    reg : (size : ℕ) → Node
    lnk : (text : List ℕ) → Node
    dir : Entries → Node
    other : Node

  pub data Entries : Type 0 where
    end_of_dir : Entries
    entry : Name → Node → Entries → Entries

-- What mkdirat answers: the directory is new, or errno is EEXIST, or another.
pub data Mkdir : Type 0 where
  made exists refused : Mkdir

-- The system: whether a call fails, by the path that it is given. `open_src` is open and fstat,
-- `chdir_fails` is fchdir and fdopendir, or chdir(".."), and closedir succeeds.
pub record System : Type 0 where
  pub open_src : FilePath → Bool
  pub open_dst : FilePath → Bool
  pub mkdir_answer : FilePath → Mkdir
  pub readlink_fails : FilePath → Bool
  pub symlink_fails : FilePath → Bool
  pub chdir_fails : FilePath → Bool

-- A file whose two descriptors were opened: its paths, and the size that fstat gave.
pub record Opened : Type 0 where
  pub src : FilePath
  pub dst : Option FilePath
  pub size : ℕ

pub record Walk : Type 0 where
  pub cwd : FilePath
  pub files : List Opened
  -- the links that were made, with their texts, and the directories
  pub links : List (FilePath × List ℕ)
  pub dirs : List FilePath

-- `EXIT_ON(fname, is_err)`
abbrev pub exit_on : Bool → Result (Unit {0})
exit_on is_err = if is_err then err (exited 1) else ok tt

-- `chdir("..")`
unfoldable pub parent : FilePath → FilePath
parent [] = []
parent (n ∷ []) = []
parent (n ∷ m ∷ p) = n ∷ parent (m ∷ p)

-- "." and ".."
unfoldable pub is_dot : Name → Bool
is_dot [] = false
is_dot (c ∷ []) = c == b'.'
is_dot (c ∷ d ∷ []) = c == b'.' && d == b'.'
is_dot (c ∷ d ∷ e ∷ s) = false

module _ (sys : System) (fuel : ℕ) (stale : List ℕ) where
  -- `openat(dst, name)`
  unfoldable pub opened_at : Option FilePath → Name → Option FilePath
  opened_at none name = none
  opened_at (some d) name = if sys.open_dst (d ++ name ∷ []) then some (d ++ name ∷ []) else none

  -- The destination's descriptor is not checked here.
  unfoldable pub handle_regular_file : Name → ℕ → Option FilePath → Walk → Result Walk
  handle_regular_file name size dst w = do
    let src = w.cwd ++ name ∷ []
    exit_on (not (sys.open_src src))
    ok (record w {
      files = w.files ++ record { src = src; dst = opened_at dst name; size = size } ∷ [];
    })

  unfoldable pub make_link : Name → List ℕ → Option FilePath → Walk → Result Walk
  make_link name text none w = do
    exit_on (sys.readlink_fails (w.cwd ++ name ∷ []))
    t ← handle_symbolic_link fuel text stale
    err (exited 1)
  make_link name text (some d) w = do
    exit_on (sys.readlink_fails (w.cwd ++ name ∷ []))
    t ← handle_symbolic_link fuel text stale
    exit_on (sys.symlink_fails (d ++ name ∷ []))
    ok (record w { links = w.links ++ (d ++ name ∷ [], t) ∷ [] })

  -- `mkdirat`, of which EEXIST is accepted: the directories that were made.
  unfoldable pub make_dir : Name → Option FilePath → Walk → Result Walk
  make_dir name none w = err (exited 1)
  make_dir name (some d) w = elim (sys.mkdir_answer (d ++ name ∷ [])) [
    | made ↦ ok (record w { dirs = w.dirs ++ (d ++ name ∷ []) ∷ [] })
    | exists ↦ ok w
    | refused ↦ err (exited 1)
  ]

  -- `close(dst_fd2)`, which fails for -1.
  unfoldable pub close_dst : Option FilePath → Result (Unit {0})
  close_dst none = err (exited 1)
  close_dst (some d) = ok tt

  unfoldable mutual
    -- The loop over readdir.
    pub cp_dir : Entries → Option FilePath → Walk → Result Walk
    cp_dir end_of_dir dst w = ok w
    cp_dir (entry name node rest) dst w = do
      w' ← if is_dot name then ok w else cp_node node name dst w
      cp_dir rest dst w'

    -- The switch over the type of an entry.
    pub cp_node : Node → Name → Option FilePath → Walk → Result Walk
    cp_node (reg size) name dst w = handle_regular_file name size dst w
    cp_node (lnk text) name dst w = make_link name text dst w
    cp_node (dir entries) name dst w = do
      let src2 = w.cwd ++ name ∷ []
      exit_on (not (sys.open_src src2))
      w₁ ← make_dir name dst w
      let dst2 = opened_at dst name
      exit_on (sys.chdir_fails src2)
      w₂ ← cp_dir entries dst2 (record w₁ { cwd = src2 })
      exit_on (sys.chdir_fails (parent w₂.cwd))
      close_dst dst2
      ok (record w₂ { cwd = parent w₂.cwd })
    cp_node other name dst w = ok w
