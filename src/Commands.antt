-- ===== src/Commands.antt =====
-- The commands that a runner can start, and the interface `runner.Command` over them.
pub mod Files
pub mod Consul
pub mod Nomad
pub mod Vault
pub mod Prometheus
pub mod Command
