-- ===== src/Lib.antt =====
-- Eight programs of this repository. The trace replayer, nvm_tools-J/helper/replay.c, reads a block
-- trace, gives every worker thread a part of it, and each worker replays its part on a file of its
-- own. The benchmarks of the file systems with deduplication run it, and what they measure depends
-- on the contents that it writes: equal digests have to give equal blocks. The benchmark
-- nvm_tools-J/helper/rw_interference.cpp measures readers beside writers: its threads write blocks
-- that are duplicates, or new. nvm_tools-J/helper/aging_system.c fills a file system, punches holes
-- in what it wrote and fills them. nvm_tools-J/helper/shuffle_and_write.cpp writes the blocks of a
-- file in another order; create_files.c, write_1G.c and exhaust_nvmm.c, beside it, make files.
-- mcp/src/main.cpp copies a directory with several threads.
--
-- How the parts of the replayer interact: main calls parse_trace_info, which fills an array of
-- traces; build_trace_containers gathers the traces of one sector in one container and enters it in
-- a hash map by its sector; assign_params_per_worker sorts the map, appends each container to that
-- of one worker, sorts every worker's traces by time and groups adjacent blocks into hints;
-- replay_worker then makes one system call for each hint, with blocks that fill_blk makes from the
-- digests.
--
-- In rw_interference, make_tasks gives each task a range of magic numbers, prepare_workload writes
-- the blocks that the readers' tasks write again, and run creates a thread for each task, joins
-- those that are measured, cancels the others and sums the blocks of the joined ones. In mcp,
-- cp_dir opens the files below the source directory and makes the directories and links, main gives
-- each file to the thread with the least bytes, and each thread copies its files with cp_func.
--
-- Files and code of the replayer, all of nvm_tools-J/helper/replay.c unless said otherwise:
-- - Common (Tests, Lists, Nested, Family, Perms, Run): shared names, Boolean tests, lists by native
--   indices, lists of lists, families by numbers, lists in another order, and the results of a C
--   run. An undefined behaviour of C (a read or a write out of bounds, also where the code tests nothing
--   and goes on, a division by zero, an overflow of int, the use of freed memory) and a call of exit
--   are error values.
-- - Trace: struct trace_info and struct trace_replay_hint. Slice: slices of arrays.
-- - Options: the options of main and their checks. Options/Checked: a trace and a directory alone.
-- - Parse: parse_trace_info. Parse/Traces: what it makes of the lines.
-- - Sort: _merge_array_by_ts, _trace_infomap_msort_by_ts and trace_container_sort_infomap_by_ts.
--   Sort/Merge, Sort/Stable and Sort/Whole: the merge, a stable specification and the whole sort.
-- - Container: struct trace_container with its functions. Container/Contents: the list that it
--   holds.
-- - HashMap: the interface of map.h that the replayer uses. Gather: build_trace_containers, with
--   Gather/Groups and Gather/Build on the containers of the sectors.
-- - Order: trace_container_cmp. Assign/Shares: the loop over the buckets in
--   assign_params_per_worker, with Assign/Shares/Groups, Guards and Whole on who gets what.
--   Assign/Sorted: the sorted map before that loop, with Assign/Sectors. Hints: the loop that
--   groups traces into hints, with Hints/Cover and Hints/Size. Assign/Params: the loop over the
--   workers and replay_param_t, with Assign/Params/Replayed and Files on what the workers are given
--   and leave.
-- - Random: the wrappers of the generators, and lcg_rand_r of nvm_tools-J/helper/lcg.c.
-- - Buffer: memory as a list of bytes. Fill: rand_gener_t and fill_blk, with Fill/Block, Content
--   and Overrun. File: pwrite, write and pread on a file, as the worker calls them.
-- - Worker: check_ret and replay_worker. Worker/Spec: the file that traces leave one at a time;
--   Worker/Hint, Reads and Replays: one write, one read, and the whole worker.
-- - Replay: the phases of main behind the options, which call all of these in the order of main.
--   Replay/Parts and Files: what the workers get, and the files that a run leaves.
-- - Tests: runs on small inputs, and the theorems with hypotheses at such inputs.
--
-- Files and code of rw_interference.cpp:
-- - Interference: make_tasks, make_file, prepare_workload and dedup_or_write_task.
--   Interference/Tasks: the ranges of the tasks. Interference/Content: what the two stages write.
-- - Interference/Threads: run, as a step relation on the main thread and the threads of the tasks.
--   Threads/Moves, Invariant and Created: what holds in every state that it reaches.
--   Threads/Result: the blocks that it reports. Threads/Ending and Returning: that it ends.
-- - Interference/Main: the options and the stages of main. Interference/Main/Calls: the stage as the
--   last option; Interference/Main/Duplicates: a call that prepares, and then one that runs.
--
-- Files and code of aging_system.c:
-- - Ageing: the three phases of main. Ageing/Filled: what is written. Ageing/Punched and Endless:
--   where the punching ends, and where not. Ageing/Whole: the files at the end of all phases.
--   Ageing/Main: the options, the seed and the phases that they ask for. Ageing/Main/Whole: the files
--   at the end of a call with phase 4.
--
-- Files and code of shuffle_and_write.cpp:
-- - Shuffle: the part of main behind the options. Shuffle/Order: the blocks of the new file, and
--   Shuffle/Short: the copy of a file that is shorter than a block.
--
-- Files and code of create_files.c, write_1G.c and exhaust_nvmm.c:
-- - Makers: the three programs. Makers/Names, Pages and Blocks: what each leaves.
--
-- Files and code of mcp/src/main.cpp:
-- - Mcp/Jobs: FileWork and the loop of main that assigns the files. Mcp/Jobs/Loads: the queue;
--   Mcp/Jobs/Rounds and Balance: one round, and the bytes of the threads at the end.
-- - Mcp/Copy: writen and cp_func. Mcp/Copy/Whole and Nothing: what a thread leaves in the
--   files.
-- - Mcp/Threads: the threads of main, as a step relation on the main thread and on those that run
--   cp_func. Threads/Frame and Invariant: what a step leaves, and what holds in every state that is
--   reached. Threads/Result and Planned: the files when main returns. Threads/Ending and Returning:
--   that it ends.
-- - Mcp/Link: handle_symbolic_link. Mcp/Link/Text: the text of the new link.
-- - Mcp/Tree: handle_regular_file and cp_dir. Mcp/Tree/Places: what is opened and made, and where.
-- - Mcp/Main: main up to its threads. Mcp/Main/Works and Whole: the descriptors of the files, and
--   the whole program.
--
-- State: a pointer to a container is an index into a heap, a freed container is an empty cell, an
-- array of pointers to traces is the list of these traces, and a file or a buffer is a list of
-- bytes. unsigned long wraps at 2 ^ 64 and an int is given by its 32 bits where the code leaves its
-- range. The library's functions are parameters: getopt, atoi, realloc, malloc, rand, rand_r,
-- sscanf, the hash map and mt19937ar, and what the system calls answer is a stream of counts. So
-- are, for the other programs, std::sort, std::random_shuffle, the product with a double, basename,
-- the descriptors that open gives, and which calls on directories fail. The threads of
-- rw_interference and of mcp take their steps in any order.
--
-- Bounds and fuel: a loop that counts has its rounds as argument. The merge loops have one more
-- than the length of their range, the recursion of the sort has 65 levels, enough for every range
-- of 64-bit indices, and the read loop has one more than the bytes it asks for; the theorems on
-- these functions state that they return, so the fuel is enough wherever their hypotheses hold. The
-- loops of writen and cp_func have one round more than the bytes that are left, and the theorem on
-- cp_func says that it returns. The punching of aging_system has as fuel the numbers that it draws;
-- the theorem on it states how many are enough, and the loop over a long link has its rounds as
-- fuel, of which no number is enough. A schedule of run, or of the threads of mcp, has no fuel: its
-- steps are counted and bounded.
--
-- Not modelled: what the replayer's main frees at its end and its report, the prints,
-- timespec_to_ns, get_ns_diff and the quick sort that nothing calls; map.c and mt19937ar.c, copies
-- of other projects' libraries; and the other programs of nvm_tools-J, which print sums. A negative
-- number of threads is not modelled, nor are the names of the replayer's and of rw_interference's
-- files.
pub mod Common
pub mod Trace
pub mod Parse
pub mod Slice
pub mod Sort
pub mod Container
pub mod Hints
pub mod Buffer
pub mod Fill
pub mod File
pub mod Worker
pub mod HashMap
pub mod Gather
pub mod Random
pub mod Order
pub mod Assign
pub mod Options
pub mod Makers
pub mod Mcp
pub mod Interference
mod Tests
pub mod Ageing
pub mod Shuffle
pub mod Replay
