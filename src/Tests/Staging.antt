-- ===== src/Tests/Staging.antt =====
-- main of the interference benchmark on small inputs.
use gogeta_fs_ae.Common.{
  ℕ, ◌+◌, ◌*◌, ◌-◌, ◌/◌, ◌^◌, ◌≡◌, refl, true, false, some, List, [], ◌∷◌, ◌++◌, replicate, ok,
  arith,
}
use gogeta_fs_ae.File.{Answer, count}
use gogeta_fs_ae.Interference.{
  Task, mo_read_lat, make_tasks, add_tasks, share, split_blocks, total_blocks,
}
use gogeta_fs_ae.Interference.Main.{
  Config, Opt, opt_d, opt_g, opt_r, opt_w, opt_a, opt_s, copy_dirpath, set_option, set_options,
  task_list_of, RunCall, stages_of, make_task_list, main,
}
use gogeta_fs_ae.Interference.Main.Duplicates.{Given, Duplicates}

abbrev quarter : ℕ → ℕ
quarter n = n / 4

-- atoi and atol of digits.
abbrev decimal_from : ℕ → List ℕ → ℕ
decimal_from n [] = n
decimal_from n (c ∷ s) = decimal_from (n * 10 + (c - b'0')) s

abbrev decimal : List ℕ → ℕ
decimal s = decimal_from 0 s

-- `-d /p/ -g 134217728 -r 1 -w 1 -a 1`
abbrev five_opts : List Opt
five_opts =
    opt_d (b'/' ∷ b'p' ∷ b'/' ∷ [])
    ∷ opt_g (b'1' ∷ b'3' ∷ b'4' ∷ b'2' ∷ b'1' ∷ b'7' ∷ b'7' ∷ b'2' ∷ b'8' ∷ [])
    ∷ opt_r (b'1' ∷ [])
    ∷ opt_w (b'1' ∷ [])
    ∷ opt_a (b'1' ∷ [])
    ∷ []

abbrev five_set : Config
five_set = record {
  dirpath = b'/' ∷ b'p' ∷ [];
  granularity = some (2 ^ 27);
  total_io = some 1;
  reader_num = some 1;
  writer_num = some 1;
  measurement_object = mo_read_lat;
  stage = 0;
}

abbrev whole_write : ℕ → Answer
whole_write k = count (2 ^ 27)

abbrev eight_blocks : List Task
eight_blocks =
    record { start_magic = 0; num_blocks = 2; progress = 0; id = 0; dup = true }
    ∷ record { start_magic = 8; num_blocks = 6; progress = 0; id = 1; dup = false }
    ∷ []

-- Memory of zeros.
abbrev no_data : (calls size : ℕ) → List ℕ
no_data calls size = replicate size 0

abbrev eight_call : RunCall
eight_call = record {
  dirpath = b'/' ∷ b'p' ∷ [];
  task_list = eight_blocks;
  granularity = 2 ^ 27;
  measurement_object = mo_read_lat;
}

all-test :
    main no_data whole_write quarter decimal decimal (five_opts ++ opt_s (b'0' ∷ []) ∷ [])
    ≡ ok (stages_of no_data whole_write quarter 0 eight_call)
unfolding main make_task_list total_blocks task_list_of make_tasks add_tasks share split_blocks
    set_options set_option copy_dirpath
all-test = refl

five_given : Given five_set
five_given = record {
  granularity = 2 ^ 27;
  total_io = 1;
  reader_num = 1;
  writer_num = 1;
  has_granularity = refl;
  has_total_io = refl;
  has_reader_num = refl;
  has_writer_num = refl;
  some_byte = omega arith;
  whole_words = omega arith;
  some_task = omega arith;
  few_tasks = omega arith;
  few_blocks = omega arith;
}
