-- ===== src/Options.antt =====
-- nvm_tools-J/helper/replay.c: the options of main (lines 797 to 938). An option is what getopt
-- returns: its letter, and optarg. A string is the list of its characters before the NUL, and atoi is
-- a parameter, of which the int is given by its 32 bits.
pub mod Checked
use gogeta_fs_ae.Common.{
  ℕ, ◌+◌, ◌-◌, ◌%◌, ◌^◌, Bool, true, false, ◌&&◌, Option, none, some, List, [], ◌∷◌, ◌++◌, ltb,
  ◌==◌, length, Result, ok, err, out_of_bounds, exited, ◌>>=◌, if◌then◌else◌,
}
use gogeta_fs_ae.Random.{GenerType, random_null, random_mt19937ar, random_stdlib, random_lcg}
use gogeta_fs_ae.Worker.{Mode, write_only, read_write, append}
use gogeta_fs_ae.Parse.{TraceFormat, fiu, hitsz}

-- The variables that the options set.
pub record Config : Type 0 where
  pub filepath : List ℕ
  pub dstpath : List ℕ
  pub mode : Mode
  pub rand_gener_type : GenerType
  pub max_continuous_4K_blks : ℕ
  pub threads : ℕ
  pub verbose : Bool
  pub trace_format_type : TraceFormat
  pub is_dump_read : Bool
  pub dump_read_path : List ℕ

-- Their initial values.
abbrev pub initial : Config
initial = record {
  filepath = [];
  dstpath = [];
  mode = write_only;
  rand_gener_type = random_null;
  max_continuous_4K_blks = 1;
  threads = 1;
  verbose = false;
  trace_format_type = fiu;
  is_dump_read = false;
  dump_read_path = [];
}

abbrev pub max_name_len : ℕ
max_name_len = 256

abbrev pub slash : ℕ
slash = b'/'

-- `strcpy` into an array of 256 characters, the NUL included. The source does not test that the name
-- fits: a longer one is written out of bounds, which is undefined, and so an error value here.
unfoldable pub copy_name : List ℕ → Result (List ℕ)
copy_name s = if ltb (length s) max_name_len then ok s else err out_of_bounds

-- `s[strlen(s) - 1]`
unfoldable pub last_char : List ℕ → Result ℕ
last_char [] = err out_of_bounds
last_char (c ∷ []) = ok c
last_char (c ∷ d ∷ s) = last_char (d ∷ s)

-- A directory: with a slash behind it if it has none.
unfoldable pub copy_directory : List ℕ → Result (List ℕ)
copy_directory s = do
  path ← copy_name s
  c ← last_char path
  if c == slash then ok path else copy_name (path ++ slash ∷ [])

-- `strcmp(s, t) == 0`
unfoldable pub same_string : List ℕ → List ℕ → Bool
same_string [] [] = true
same_string [] (d ∷ t) = false
same_string (c ∷ s) [] = false
same_string (c ∷ s) (d ∷ t) = (c == d) && same_string s t

-- What main returns for a wrong argument: -1, of which the shell sees 255.
abbrev pub bad_argument : {A : Type 0} → Result A
bad_argument = err (exited 255)

unfoldable pub mode_of : List ℕ → Result Mode
mode_of s =
    if same_string s (b'w' ∷ [])
    then ok write_only
    else (if same_string s (b'r' ∷ b'w' ∷ [])
        then ok read_write
        else (if same_string s (b'a' ∷ []) then ok append else bad_argument))

unfoldable pub gener_type_of : List ℕ → Result GenerType
gener_type_of s =
    if same_string s (b'm' ∷ b't' ∷ b'1' ∷ b'9' ∷ b'9' ∷ b'3' ∷ b'7' ∷ b'a' ∷ b'r' ∷ [])
    then ok random_mt19937ar
    else (if same_string s (b'r' ∷ b'a' ∷ b'n' ∷ b'd' ∷ [])
        then ok random_stdlib
        else (if same_string s (b'l' ∷ b'c' ∷ b'g' ∷ [])
            then ok random_lcg
            else (if same_string s (b'n' ∷ b'u' ∷ b'l' ∷ b'l' ∷ [])
                then ok random_null
                else bad_argument)))

unfoldable pub format_of : List ℕ → Result TraceFormat
format_of s =
    if same_string s (b'f' ∷ b'i' ∷ b'u' ∷ [])
    then ok fiu
    else (if same_string s (b'h' ∷ b'i' ∷ b't' ∷ b's' ∷ b'z' ∷ []) then ok hitsz else bad_argument)

-- The letters of "f:d:o:g:t:c:vhm:r:" with their arguments; `unknown` is any other.
pub data Opt : Type 0 where
  opt_f opt_d opt_o opt_g opt_c opt_t opt_m opt_r : List ℕ → Opt
  opt_v opt_h unknown : Opt

module _ (atoi : List ℕ → ℕ) where
  -- The switch over the options. An int that becomes an unsigned long keeps its sign.
  unfoldable pub set_option : Config → Opt → Result Config
  set_option c (opt_f s) = copy_name s >>= λ path. ok (record c { filepath = path })
  set_option c (opt_d s) = copy_directory s >>= λ path. ok (record c { dstpath = path })
  set_option c (opt_o s) = copy_name s >>= mode_of >>= λ m. ok (record c { mode = m })
  set_option c (opt_g s) =
      copy_name s >>= gener_type_of >>= λ g. ok (record c { rand_gener_type = g })
  set_option c (opt_c s) =
      let i : ℕ = atoi s in
      ok (record c { max_continuous_4K_blks = if ltb i (2 ^ 31) then i else i + (2 ^ 64 - 2 ^ 32) })
  set_option c (opt_t s) = ok (record c { threads = atoi s })
  set_option c opt_v = ok (record c { verbose = true })
  set_option c (opt_m s) =
      copy_name s >>= format_of >>= λ f. ok (record c { trace_format_type = f })
  set_option c (opt_r s) =
      copy_directory s >>= λ path. ok (record c { is_dump_read = true; dump_read_path = path })
  set_option c opt_h = err (exited 1)
  set_option c unknown = err (exited 1)

  unfoldable pub set_options : Config → List Opt → Result Config
  set_options c [] = ok c
  set_options c (o ∷ opts) = do c' ← set_option c o; set_options c' opts

  -- The checks between the options and the parsing; `opens` says whether fopen succeeds.
  unfoldable pub check_config : (opens : List ℕ → Bool) → Config → Result Config
  check_config opens c =
      if length c.filepath == 0
      then err (exited 1)
      else (if length c.dstpath == 0
          then err (exited 1)
          else (if opens c.filepath
              then (if ltb 512 c.threads && ltb c.threads (2 ^ 31) then err (exited 1) else ok c)
              else err (exited 1)))

  unfoldable pub configure : (opens : List ℕ → Bool) → List Opt → Result Config
  configure opens opts = do c ← set_options initial opts; check_config opens c
