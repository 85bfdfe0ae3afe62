-- ===== src/Interference/Main.antt =====
-- nvm_tools-J/helper/rw_interference.cpp: main. An option is what getopt returns: its letter, and
-- optarg, the list of its characters before the NUL. atoi and atol are parameters, which give 32 and
-- 64 bits. A variable that no option sets has no value: what the code reads there is undefined, and
-- an error here. The prints are not modelled.
pub mod Calls
pub mod Duplicates
use gogeta_fs_ae.Common.{
  ℕ, ◌+◌, ◌-◌, Option, none, some, List, [], ◌∷◌, ltb, ◌==◌, length, take, Result, ok, err, exited,
  out_of_bounds, read, ◌>>=◌, if◌then◌else◌,
}
use gogeta_fs_ae.File.{Answer}
use gogeta_fs_ae.Interference.{
  Task, mo_read_lat, make_tasks, total_blocks, Written, prepare_workload,
}

-- The variables that the options set.
pub record Config : Type 0 where
  pub dirpath : List ℕ
  pub granularity : Option ℕ
  pub total_io : Option ℕ
  pub reader_num : Option ℕ
  pub writer_num : Option ℕ
  pub measurement_object : ℕ
  pub stage : ℕ

abbrev pub initial : Config
initial = record {
  dirpath = [];
  granularity = none;
  total_io = none;
  reader_num = none;
  writer_num = none;
  measurement_object = mo_read_lat;
  stage = 0;
}

-- The letters of "d:g:r:w:a:s:m:h" with their arguments; `unknown` is any other.
pub data Opt : Type 0 where
  opt_d opt_g opt_r opt_w opt_a opt_s opt_m : List ℕ → Opt
  opt_h unknown : Opt

-- The array of 128 characters, with a last '/' removed. `dirpath[strlen(dirpath) - 1]` of an empty
-- name is outside of it.
unfoldable pub copy_dirpath : List ℕ → Result (List ℕ)
copy_dirpath [] = err out_of_bounds
copy_dirpath (c ∷ s) =
    if ltb (length (c ∷ s)) 128 then ok (without_slash c s) else err out_of_bounds
  where
    without_slash : ℕ → List ℕ → List ℕ
    without_slash d [] = if d == b'/' then [] else d ∷ []
    without_slash d (e ∷ t) = d ∷ without_slash e t

module _ (atoi atol : List ℕ → ℕ) where
  unfoldable pub set_option : Config → Opt → Result Config
  set_option c (opt_d s) = copy_dirpath s >>= λ path. ok (record c { dirpath = path })
  set_option c (opt_g s) = ok (record c { granularity = some (atol s) })
  set_option c (opt_r s) = ok (record c { reader_num = some (atoi s) })
  set_option c (opt_w s) = ok (record c { writer_num = some (atoi s) })
  set_option c (opt_a s) = ok (record c { total_io = some (atol s) })
  set_option c (opt_s s) = ok (record c { stage = atoi s })
  set_option c (opt_m s) = ok (record c { measurement_object = atoi s })
  set_option c opt_h = err (exited 1)
  set_option c unknown = err (exited 1)

  unfoldable pub set_options : Config → List Opt → Result Config
  set_options c [] = ok c
  set_options c (o ∷ opts) = do c' ← set_option c o; set_options c' opts

-- What make_tasks leaves in `task_list`: main does not look at its return of -1.
unfoldable pub task_list_of : Option (List Task) → List Task
task_list_of none = []
task_list_of (some tasks) = tasks

-- The arguments of run.
pub record RunCall : Type 0 where
  pub dirpath : List ℕ
  pub task_list : List Task
  pub granularity : ℕ
  pub measurement_object : ℕ

-- What a stage does: the directory in which prepare_workload writes, and the files that it leaves there,
-- by their numbers; and the call of run.
pub record Stages : Type 0 where
  pub prepared : Option (List ℕ × List Written)
  pub running : Option RunCall

module _ (malloc : (calls size : ℕ) → List ℕ) (answers : ℕ → Answer) (quarter : ℕ → ℕ) where
  -- `switch (stage)`
  unfoldable pub stages_of : (stage : ℕ) → RunCall → Stages
  stages_of stage call =
      let files = prepare_workload malloc answers call.granularity call.task_list in
      if stage == 0
      then record { prepared = some (call.dirpath, files); running = some call }
      else (if stage == 1
          then record { prepared = some (call.dirpath, files); running = none }
          else (if stage == 2
              then record { prepared = none; running = some call }
              else record { prepared = none; running = none }))

  -- What the stages are called with: the options, and what make_tasks leaves.
  unfoldable pub make_task_list : Config → Result RunCall
  make_task_list c = do
    total_io ← read c.total_io
    granularity ← read c.granularity
    total_num_blocks ← total_blocks total_io granularity
    reader_num ← read c.reader_num
    writer_num ← read c.writer_num
    ok (record {
      dirpath = c.dirpath;
      task_list =
          task_list_of
            (make_tasks quarter reader_num writer_num total_num_blocks c.measurement_object);
      granularity = granularity;
      measurement_object = c.measurement_object;
    })

  unfoldable pub main : (atoi atol : List ℕ → ℕ) → List Opt → Result Stages
  main atoi atol opts = do
    c ← set_options atoi atol initial opts
    call ← make_task_list c
    ok (stages_of c.stage call)
