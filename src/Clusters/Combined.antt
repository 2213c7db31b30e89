-- ===== src/Clusters/Combined.antt =====
-- cluster/cluster.go: Consul clusters together with their clients, with a Nomad cluster or with a
-- Vault cluster.
pub mod ConsulVault
use yurt.Prelude.{ℕ, zero, suc, String, ◌<>◌, Bool, List, [], ◌∷◌, ◌++◌, Option, none, some}
use yurt.Effects.{Error, Result, ok, err, panic, wrapped}
use yurt.Effects.Calls.{Exec, pure, raise, call, ◌>>=◌, ◌>>◌}
use yurt.Commands.Vault.{Seal}
use yurt.Clusters.{World, Event, Harness, note, watch, stop}
use yurt.Clusters
use yurt.Clusters.Consul.{ConsulCluster, new_consul_cluster, client_agent}
use yurt.Clusters.Nomad.{
  NomadCluster, stop_each, stop_all, ask_endpoint, new_nomad_cluster, nomad_client_agent,
}
use yurt.Clusters.Vault.{VaultCluster, VaultWorld}
use yurt.Clusters.Vault.Creating.{new_vault_cluster}
use yurt.Clusters.Vault.Replacing.{stop_servers}

-- `ConsulCluster.Stop`
unfoldable pub stop_consul : ConsulCluster → List Event → List Event
stop_consul c h = stop_each c.servers h

-- `e.Go(client.Wait)` on the answer of `ClientAgent`: the method of a nil interface panics.
abbrev pub wait_client : Exec Event Harness → Exec Event Harness
wait_client m h = elim (m h).0 [
  | err e ↦ (err (panic "nil pointer dereference"), (m h).1)
  | ok client ↦ (ok client, watch client ∷ (m h).1)
]

-- `fmt.Errorf("consul cluster not healthy: %v", err)`
abbrev pub or_unhealthy : Exec Event (Unit {0}) → Exec Event (Unit {0})
or_unhealthy m h = elim (m h).0 [
  | err e ↦ (err (wrapped "consul cluster not healthy" e), (m h).1)
  | ok _ ↦ (ok tt, (m h).1)
]

-- `NewConsulClusterAndClient`
unfoldable pub new_consul_cluster_and_client :
    World → Bool → String → Exec Event (ConsulCluster × Harness)
new_consul_cluster_and_client w has_ca name = do
  cluster ← new_consul_cluster w has_ca name 3
  client ← wait_client (client_agent w has_ca cluster (name <> "-consul-cli"))
  or_unhealthy (
      call (Clusters.consul_healthy (client ∷ []) cluster.peer_addrs)
        (w.consul_healthy (client ∷ []) cluster.peer_addrs))
  pure (cluster, client)

pub record ConsulNomadCluster : Type 0 where
  pub name : String
  pub consul : ConsulCluster
  pub nomad : NomadCluster

-- `NewConsulNomadCluster`
unfoldable pub new_consul_nomad_cluster : World → Bool → String → ℕ → Exec Event ConsulNomadCluster
new_consul_nomad_cluster w has_ca name node_count = do
  consul ← new_consul_cluster w has_ca name node_count
  nomad ← new_nomad_cluster w has_ca name node_count consul
  pure (record { name = name; consul = consul; nomad = nomad })

-- `ConsulNomadCluster.Stop`
unfoldable pub stop_consul_nomad : ConsulNomadCluster → List Event → List Event
stop_consul_nomad c h = stop_consul c.consul (stop_all c.nomad h)

pub record NomadClient : Type 0 where
  pub consul_harness : Harness
  pub nomad_harness : Harness

-- `if err != nil { _ = consulHarness.Stop(); return nil, err }`
abbrev pub or_stop_agent : Harness → Exec Event Harness → Exec Event Harness
or_stop_agent agent m h = elim (m h).0 [
  | err e ↦ (err e, stop agent ∷ (m h).1)
  | ok nomad ↦ (ok nomad, (m h).1)
]

-- `ConsulNomadCluster.NomadClient`
unfoldable pub nomad_client : World → Bool → ConsulNomadCluster → Exec Event NomadClient
nomad_client w has_ca c = do
  agent ← client_agent w has_ca c.consul (c.name <> "-consul-cli")
  consul_addr ← ask_endpoint w agent
  nomad ← or_stop_agent agent (nomad_client_agent w has_ca (c.name <> "-nomad-cli") consul_addr)
  pure (record { consul_harness = agent; nomad_harness = nomad })

-- `NomadClient.Stop`
unfoldable pub stop_nomad_client : NomadClient → List Event → List Event
stop_nomad_client c h = stop c.consul_harness ∷ stop c.nomad_harness ∷ h

-- `NewConsulNomadClusterAndClient`
unfoldable pub new_consul_nomad_cluster_and_client :
    World → Bool → String → Exec Event (ConsulNomadCluster × NomadClient)
new_consul_nomad_cluster_and_client w has_ca name = do
  cluster ← new_consul_nomad_cluster w has_ca name 3
  client ← nomad_client w has_ca cluster
  pure (cluster, client)

-- `Vault` is nil until the Vault cluster is made.
pub record ConsulVaultCluster : Type 0 where
  pub name : String
  pub consul : ConsulCluster
  pub vault : Option VaultCluster
  pub consul_agents : List Harness

-- `ConsulVaultCluster.Stop`, which reads the servers of the Vault cluster.
unfoldable pub stop_consul_vault : ConsulVaultCluster → Exec Event (Unit {0})
stop_consul_vault c h = elim c.vault [
  | none ↦ (err (panic "nil pointer dereference"), h)
  | some v ↦ (ok tt, stop_consul c.consul (stop_servers v h))
]

-- `if err != nil { cluster.Stop(); return nil, err }`
abbrev pub or_stop_cluster : ConsulVaultCluster → Exec Event String → Exec Event String
or_stop_cluster c m h = elim (m h).0 [
  | ok a ↦ (ok a, (m h).1)
  | err e ↦ (stop_consul_vault c >> raise e) (m h).1
]

abbrev pub with_consul_agent : Harness → ConsulVaultCluster → ConsulVaultCluster
with_consul_agent agent c = record c { consul_agents = c.consul_agents ++ (agent ∷ []) }

-- One round of the loop that starts the Consul agents, with the addresses so far.
unfoldable pub start_agent :
    World → Bool → ConsulVaultCluster → List String → Exec Event (ConsulVaultCluster × List String)
start_agent w has_ca c addrs = do
  agent ← client_agent w has_ca c.consul (c.name <> "-consul-cli")
  note (watch agent)
  addr ← or_stop_cluster (with_consul_agent agent c) (ask_endpoint w agent)
  pure (with_consul_agent agent c, addrs ++ (addr ∷ []))

-- The loop, for the rounds that are left.
unfoldable pub start_agents :
    World
    → Bool
    → ℕ
    → ConsulVaultCluster
    → List String
    → Exec Event (ConsulVaultCluster × List String)
start_agents w has_ca zero c addrs = pure (c, addrs)
start_agents w has_ca (suc rounds) c addrs =
    start_agent w has_ca c addrs >>= λ next. start_agents w has_ca rounds next.0 next.1

abbrev pub no_agents : String → ConsulCluster → ConsulVaultCluster
no_agents name consul = record { name = name; consul = consul; vault = none; consul_agents = [] }

-- `NewConsulVaultCluster`
unfoldable pub new_consul_vault_cluster :
    VaultWorld → Bool → String → ℕ → Option Seal → Exec Event ConsulVaultCluster
new_consul_vault_cluster w has_ca name node_count seal = do
  consul ← new_consul_cluster w.world has_ca name node_count
  agents ← start_agents w.world has_ca node_count (no_agents name consul) []
  vault ← new_vault_cluster w has_ca name node_count agents.1 seal 0
  pure (record agents.0 { vault = some vault })
