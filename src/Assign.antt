-- ===== src/Assign.antt =====
-- nvm_tools-J/helper/replay.c: assign_params_per_worker. Shares hands each sector's container to a
-- worker, Params sorts a worker's traces, extracts its hints and fills its replay_param_t.
-- `threads` is the int of the option -t where it is not negative.
pub mod Shares
pub mod Params
pub mod Sectors
pub mod Sorted
