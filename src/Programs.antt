-- ===== src/Programs.antt =====
-- cmd: the programs, from their flags to the commands that they run.
pub mod YurtRun
