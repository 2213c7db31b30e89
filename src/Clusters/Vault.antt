-- ===== src/Clusters/Vault.antt =====
-- cluster/cluster.go: `VaultCluster`, whose methods change it also when they fail, and
-- `NewVaultCluster` up to the start of its further servers.
pub mod Joining
pub mod Creating
pub mod Quiet
pub mod Idle
pub mod Running
pub mod Progress
pub mod Addresses
pub mod Created
pub mod Clients
pub mod Failures
pub mod Replacing
use yurt.Prelude.{
  ℕ, zero, suc, ◌+◌, String, ◌<>◌, Bool, true, false, ◌==◌, List, [], ◌∷◌, ◌++◌, Option, none, some,
  if◌then◌else◌, str_eq,
}
use yurt.Effects.{Error, Result, ok, err, panic}
use yurt.Effects.Calls.{Exec, call}
use yurt.Effects.Methods.{Method, pure, raise, lift, calling, reading, change, ◌>>=◌, ◌>>◌}
use yurt.Types.{Ports, Node, TlsConfigPem, address}
use yurt.Commands.Vault.{
  Seal, VaultConfig, runner_ports, def_ports, new_raft_config, new_consul_config,
}
use yurt.Commands.Command.{Command}
use yurt.Sealing.{SealStatus}
use yurt.Clusters.{World, Event, Harness, note, cluster_tls, watch}
use yurt.Clusters

-- A group only collects errors: it is the events `watch`.
pub record VaultCluster : Type 0 where
  pub nodes : List Node
  pub servers : List Harness
  pub join_addrs : List String
  pub consul_addrs : List String
  pub root_token : String
  pub unseal_keys : List String
  pub seal : Option Seal
  pub old_seal : Option Seal

-- A step of a goroutine that unseals the server of a number: a call of `Unseal`, or the end of its
-- context.
pub data Turn : Type 0 where
  attempt expire : ℕ → Turn

-- The answers of vault/vault.go. `client` is the address of the new client; `turns` are the steps
-- that the goroutines take before the next step of the code that has started them.
pub record VaultWorld : Type 0 where
  pub world : World
  pub client : Harness → List Event → Result String
  pub status : Harness → List Event → Result SealStatus
  pub initialize : Harness → Option Seal → List Event → Result (String × List String)
  pub unseal : Harness → String → Bool → List Event → Option Error
  pub healthy : List Harness → List Event → Result (Unit {0})
  pub leader : List Harness → List Event → Result String
  pub autopilot_healthy : List Harness → String → List Event → Result (Unit {0})
  pub step_down : Harness → List Event → Result (Unit {0})
  pub stop : Harness → List Event → Result (Unit {0})
  -- the rounds of a loop before its context ends
  pub rounds : List Event → ℕ
  pub turns : List Event → List Turn
  -- `ctx.Err().Error()`
  pub ended : String

abbrev pub Vaults : Type 0 → Type 0
Vaults A = Method VaultCluster Event A

abbrev pub vault_ports : Ports
vault_ports = runner_ports def_ports

-- `s[i]`, which panics out of range.
unfoldable pub nth {ℓ} : {A : Type ℓ} → List A → ℕ → Result A
nth [] i = err (panic "index out of range")
nth (x ∷ l) zero = ok x
nth (x ∷ l) (suc i) = nth l i

-- `if i < len(consulAddrs) { consulAddr = consulAddrs[i] }`
unfoldable pub consul_addr_of : List String → ℕ → String
consul_addr_of [] i = ""
consul_addr_of (a ∷ addrs) zero = a
consul_addr_of (a ∷ addrs) (suc i) = consul_addr_of addrs i

-- The configuration in `startVault`.
unfoldable pub vault_config : VaultCluster → String → Option TlsConfigPem → ℕ → VaultConfig
vault_config c consul_addr tls multiplier =
    let config =
      if str_eq consul_addr ""
      then new_raft_config c.join_addrs tls multiplier
      else new_consul_config consul_addr "vault" tls in
    record config { seal = c.seal; old_seal = c.old_seal }

-- `startVault`
unfoldable pub start_vault : VaultWorld → Node → String → Bool → ℕ → Vaults Harness
start_vault w node consul_addr has_ca multiplier = do
  tls ← calling (cluster_tls w.world has_ca Clusters.vault)
  config ← reading (λ c. vault_config c consul_addr tls multiplier)
  calling
      (call (Clusters.run (Command.vault config) node) (w.world.run (Command.vault config) node))

abbrev pub with_server : Harness → VaultCluster → VaultCluster
with_server h c = record c { servers = c.servers ++ (h ∷ []) }

-- The method `addNode`.
unfoldable pub add_node : VaultWorld → Node → String → Bool → ℕ → Vaults (Unit {0})
add_node w node consul_addr has_ca multiplier = do
  h ← start_vault w node consul_addr has_ca multiplier
  change (with_server h)
  calling (note (watch h))

-- `cluster.joinAddrs = append(cluster.joinAddrs, joinAddr)`
abbrev pub with_join : String → VaultCluster → VaultCluster
with_join a c = record c { join_addrs = c.join_addrs ++ (a ∷ []) }

-- One round of the loop that allocates nodes, with the nodes so far.
unfoldable pub alloc_one : VaultWorld → String → List Node → Vaults (List Node)
alloc_one w name nodes = do
  node ← calling (
      call (Clusters.alloc_node (name <> "-vault-srv") vault_ports)
        (w.world.alloc_node (name <> "-vault-srv") vault_ports))
  join_addr ← lift (address node "http")
  change (with_join join_addr)
  pure (nodes ++ (node ∷ []))

-- The loop, for the rounds that are left.
unfoldable pub alloc_nodes : VaultWorld → String → ℕ → List Node → Vaults (List Node)
alloc_nodes w name zero nodes = pure nodes
alloc_nodes w name (suc count) nodes = alloc_one w name nodes >>= alloc_nodes w name count

-- `vault.HarnessToAPI(cluster.servers[i])` and `vault.Status(ctx, cli)`
unfoldable pub client_status : VaultWorld → ℕ → Vaults (Harness × SealStatus)
client_status w i = do
  server ← reading (λ c. nth c.servers i)
  server ← lift server
  calling (call (Clusters.vault_client server) (w.client server))
  status ← calling (call (Clusters.vault_status server) (w.status server))
  pure (server, status)

-- The closure `addNode` in `NewVaultCluster`.
unfoldable pub join : VaultWorld → List Node → Bool → ℕ → ℕ → Vaults (Harness × SealStatus)
join w nodes has_ca multiplier i = do
  node ← lift (nth nodes i)
  consul_addrs ← reading (λ c. c.consul_addrs)
  add_node w node (consul_addr_of consul_addrs i) has_ca multiplier
  client_status w i
