-- ===== src/Docker.antt =====
-- docker/docker.go: networks and containers, by calls of the Docker API.
pub mod Network
pub mod Container
