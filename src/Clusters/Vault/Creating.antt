-- ===== src/Clusters/Vault/Creating.antt =====
-- cluster/cluster.go: `NewVaultCluster`, its first server, its last checks, and the deferred
-- function that stops the servers.
use yurt.Prelude.{
  if◌then◌else◌, ℕ, zero, suc, ◌-◌, String, Bool, true, false, ◌||◌, ◌&&◌, not, List, [], ◌∷◌,
  Option, none,
}
use yurt.Effects.{Error, Result, ok, err, panic}
use yurt.Effects.Calls.{Exec, call}
use yurt.Effects.Methods.{pure, lift, calling, reading, change, ◌>>=◌, ◌>>◌}
use yurt.Types.{Node}
use yurt.Commands.Vault.{Seal}
use yurt.Sealing.{SealStatus}
use yurt.Clusters.{Event, Harness}
use yurt.Clusters
use yurt.Clusters.Nomad.{stop_each}
use yurt.Clusters.Vault.{VaultCluster, VaultWorld, Vaults, nth, alloc_nodes, join}
use yurt.Clusters.Vault.Joining.{ask_unseal, outcome, join_rest, wait_all}

abbrev pub with_secrets : String × List String → VaultCluster → VaultCluster
with_secrets (token, keys) c = record c { root_token = token; unseal_keys = keys }

-- `if !status.Initialized { cluster.rootToken, cluster.unsealKeys, err = vault.Initialize(…) }`
unfoldable pub initialize_first : VaultWorld → Harness × SealStatus → Vaults (Unit {0})
initialize_first w (server, status) = if status.initialized then pure tt else do
  seal ← reading (λ c. c.seal)
  secrets ← calling (call (Clusters.vault_initialize server seal) (w.initialize server seal))
  change (with_secrets secrets)

-- `vault.Unseal(ctx, client, cluster.unsealKeys[0], migrate)`
unfoldable pub unseal_once : VaultWorld → Harness → Bool → Vaults (Unit {0})
unseal_once w server migrate = do
  keys ← reading (λ c. c.unseal_keys)
  key ← lift (nth keys 0)
  answer ← calling (ask_unseal w server key migrate)
  lift (outcome answer)

abbrev pub ask_healthy : VaultWorld → List Harness → Vaults (Unit {0})
ask_healthy w servers = calling (call (Clusters.vault_healthy servers) (w.healthy servers))

-- `if !status.Initialized || status.Sealed { … }` and the wait for the first server
unfoldable pub unseal_first : VaultWorld → Harness × SealStatus → Vaults (Unit {0})
unseal_first w (server, status) = do
  if not status.initialized || status.sealed then unseal_once w server false else pure tt
  if status.initialized then pure tt else ask_healthy w (server ∷ [])

-- `if nodeCount > 1 { … }`
unfoldable pub join_others : VaultWorld → List Node → Bool → ℕ → ℕ → Harness → Vaults (Unit {0})
join_others w nodes has_ca multiplier zero server = pure tt
join_others w nodes has_ca multiplier (suc others) server = do
  g ←
      join_rest w nodes has_ca multiplier (suc others) 1
        (record { client = server; last_error = none; waiting = []; failed = none })
  wait_all w g

abbrev pub several : List Harness → Bool
several [] = false
several (s ∷ []) = false
several _ = true

abbrev pub is_empty : List String → Bool
is_empty [] = true
is_empty _ = false

-- `vault.RaftAutopilotHealthy(ctx, c.servers, c.rootToken)`
unfoldable pub ask_autopilot : VaultWorld → Vaults (Unit {0})
ask_autopilot w = do
  c ← reading (λ c. c)
  calling (
      call (Clusters.autopilot_healthy c.servers c.root_token)
        (w.autopilot_healthy c.servers c.root_token))

-- The checks at the end.
unfoldable pub check : VaultWorld → Vaults (Unit {0})
check w = do
  c ← reading (λ c. c)
  ask_healthy w c.servers
  if several c.servers && is_empty c.consul_addrs then ask_autopilot w else pure tt

abbrev pub with_nodes : List Node → VaultCluster → VaultCluster
with_nodes nodes c = record c { nodes = nodes }

-- The body of `NewVaultCluster`.
unfoldable pub create : VaultWorld → Bool → String → ℕ → ℕ → Vaults (Unit {0})
create w has_ca name node_count multiplier = do
  nodes ← alloc_nodes w name node_count []
  first ← join w nodes has_ca multiplier 0
  initialize_first w first
  unseal_first w first
  join_others w nodes has_ca multiplier (node_count - 1) first.0
  check w
  change (with_nodes nodes)

abbrev pub is_panic : Error → Bool
is_panic (panic text) = true
is_panic _ = false

-- The deferred function. No error is set when the code panics, so that nothing is stopped then.
unfoldable pub or_stop :
    Result (Unit {0}) × (VaultCluster × List Event) → Result VaultCluster × List Event
or_stop (ok _, (c, h)) = (ok c, h)
or_stop (err e, (c, h)) = (err e, if is_panic e then h else stop_each c.servers h)

abbrev pub no_servers : List String → Option Seal → VaultCluster
no_servers consul_addrs seal = record {
  nodes = [];
  servers = [];
  join_addrs = [];
  consul_addrs = consul_addrs;
  root_token = "";
  unseal_keys = [];
  seal = seal;
  old_seal = none;
}

-- `NewVaultCluster`
unfoldable pub new_vault_cluster :
    VaultWorld → Bool → String → ℕ → List String → Option Seal → ℕ → Exec Event VaultCluster
new_vault_cluster w has_ca name node_count consul_addrs seal multiplier h =
    or_stop (create w has_ca name node_count multiplier (no_servers consul_addrs seal, h))
