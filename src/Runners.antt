-- ===== src/Runners.antt =====
-- The two runners of commands, as processes and as containers.
pub mod Files
pub mod Exec
pub mod Docker
