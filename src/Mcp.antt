-- ===== src/Mcp.antt =====
-- mcp/src/main.cpp: the parallel copy. Link and Tree are the traversal of the source directory, Jobs
-- gives every file to a thread, Copy copies a thread's files, Threads runs the threads beside one
-- another, and Main is what main does before that.
pub mod Jobs
pub mod Copy
pub mod Threads
pub mod Link
pub mod Tree
pub mod Main
