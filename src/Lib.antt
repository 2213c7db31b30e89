-- ===== src/Lib.antt =====
-- yurt starts clusters of Consul, Nomad and Vault, with Prometheus to watch them, as processes or as
-- containers, for tests. This library models its parts and proves what they promise.
--
-- * types.go and pki/pki.go are Types: nodes, ports and the numbering of ports.
-- * runner/runner.go is Runner: the configuration that all parts share; Runner.Health asks each
--   member of a cluster for its leader and its peers, Runner.Polling repeats that.
-- * Commands has the four programs that can be run, each as its record of settings with the
--   functions Args, Env and Files: consul/consul.go, nomad/nomad.go, vault/vault.go and
--   prometheus/prometheus.go. Commands.Files has what their Files methods share, and
--   Commands.Command is the interface runner.Command, as a sum of the four.
-- * docker/docker.go is Docker: networks and containers.
-- * Runners starts a command: as a process (runner/exec/exec.go, Runners.Exec) or as a container
--   (runner/docker/docker.go, Runners.Docker); util.WriteConfig is in Runners.Files.
-- * runenv/runenv.go is Runenv: how environments are made (Runenv.Creating), the counters from which
--   they make names, ports and addresses, the runners that they start (Runenv.Launching), and the
--   target files of the monitored environment.
-- * pki/ca.go is Pki: the certificate authority. The operations on a running Vault in
--   vault/vault.go (Initialize, Status, Unseal, NewSealSource) are Sealing.
--   Sealing.AnyVault is AnyVault, whose goroutines ask one server each and share the index of the
--   loop that starts them, as a step relation.
-- * cluster/cluster.go is Clusters: Consul and Nomad clusters in an environment. Clusters.Vault starts
--   a cluster of Vault servers and replaces its nodes, Clusters.Combined builds clusters of several
--   programs out of these, Clusters.Consul.Numbering puts a Consul cluster in an ExecEnv with the
--   counters of Runenv, and Clusters.YurtRun is cluster/dockeryurt.go, which starts a Consul
--   cluster as containers that run yurt-run.
-- * cmd/yurt-run/main.go is Programs.YurtRun: its flags, the configuration of an agent and main.
-- * binaries/binaries.go is Binaries: the registry, downloads, the search in an archive, the cache and
--   the build of yurt-run (Binaries.LocalBuild).
-- * Examples has the theorems at concrete inputs, and tests.
--
-- A struct is a record and an enumeration a data type. A map is a list of pairs without repeated
-- keys (Prelude.Maps), read in its order where the code ranges over it. An error keeps the arguments
-- of its message (Effects). An int and an int32 are numbers below 2^64 and 2^32 that wrap
-- around (Prelude.Words). A call of code outside the repository is an event: a function of the
-- type Exec carries the history of all calls, the newest first, and the answer to a call is a
-- parameter that may depend on that whole history (Effects.Calls), so that the theorems hold for
-- every behaviour of the outside. Code that changes a struct while it calls is a Method
-- (Effects.Methods), which also passes the struct on when it fails. Loops over lists are structural;
-- a loop that runs until a context ends takes the list of the answers in the rounds before that end,
-- and so always terminates. Three functions run on fuel: the digits of a number on one more than the
-- number, which its digits never exceed, and split and before_last on one more than the length of the
-- text, of which each step takes at least a separator. A goroutine takes turns between the steps of
-- the code that started it: in NewVaultCluster a turn is one call of Unseal, between the rounds of its
-- loop or while Wait waits for it; in AnyVault a step is the answer of a server with its assignment, or
-- a test.
--
-- Not modelled: the clients of Consul, Nomad, Vault and Docker (parameters), goroutines that copy
-- output, logging, sleeping, the methods of clusters that kill or wait for their processes or list
-- their clients, the start of Prometheus in NewMonitoredEnv, cmd/yurt-cluster and cmd/get-binary, which
-- only read flags and call what is modelled, and the helpers of tests.
pub mod Prelude
pub mod Effects
pub mod Types
pub mod Runner
pub mod Commands
pub mod Docker
pub mod Runners
pub mod Runenv
pub mod Pki
pub mod Sealing
pub mod Clusters
pub mod Binaries
pub mod Programs
pub mod Examples
