-- ===== src/Runenv.antt =====
-- runenv/runenv.go: how the environments are made, name nodes and give them addresses and ports.
pub mod Counters
pub mod Creating
pub mod Distinctness
pub mod Hosts
pub mod Targets
pub mod Launching
