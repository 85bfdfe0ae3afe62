-- ===== src/Tests.antt =====
-- Runs of the replayer's parts on small inputs, and each theorem with hypotheses at such an input.
mod Data
mod Sorting
mod Filling
mod Working
mod Assigning
mod Copying
mod Interfering
mod Aging
mod Shuffling
mod Running
mod Threading
mod Staging
mod Making
mod Phasing
