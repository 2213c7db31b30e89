-- ===== src/Clusters/Vault/Replacing.antt =====
-- cluster/cluster.go: `ReplaceNode`, `Clients`, `Stop` and `ReplaceAllActiveLast`.
pub mod Leaders
pub mod Replaced
pub mod Stops
pub mod Migrating
use yurt.Prelude.{
  if◌then◌else◌, ℕ, zero, suc, ◌+◌, ◌==◌, String, Bool, true, false, List, [], ◌∷◌, Option, none,
  some, length, set, str_eq,
}
use yurt.Effects.{Error, Result, ok, err, message}
use yurt.Effects.Calls.{Exec, call}
use yurt.Effects.Methods.{Method, pure, raise, lift, calling, reading, change, ◌>>=◌, ◌>>◌}
use yurt.Clusters.{Event, Harness, stop}
use yurt.Clusters
use yurt.Clusters.Nomad.{stop_each}
use yurt.Clusters.Vault.{VaultCluster, VaultWorld, Vaults, nth, consul_addr_of, start_vault}
use yurt.Clusters.Vault.Joining.{ask_unseal, outcome, wrap}
use yurt.Clusters.Vault.Creating.{is_empty, ask_autopilot}

-- `VaultCluster.Stop`
unfoldable pub stop_servers : VaultCluster → List Event → List Event
stop_servers c h = stop_each c.servers h

-- `for ctx.Err() == nil { … }` around `vault.Unseal`, for the rounds before the context ends, with
-- the last error.
unfoldable pub unseal_until : VaultWorld → Harness → Bool → ℕ → Option Error → Vaults (Unit {0})
unseal_until w server migrate zero last = lift (outcome (wrap w.ended last))
unseal_until w server migrate (suc rounds) last = do
  keys ← reading (λ c. c.unseal_keys)
  key ← lift (nth keys 0)
  answer ← calling (ask_unseal w server key migrate)
  elim answer [ none ↦ pure tt | some e ↦ unseal_until w server migrate rounds (some e) ]

abbrev pub with_server_at : ℕ → Harness → VaultCluster → VaultCluster
with_server_at idx server c = record c { servers = set c.servers idx server }

-- The last steps of `ReplaceNode`, for a server that runs.
unfoldable pub put_server : VaultWorld → ℕ → Bool → Harness → Vaults (Unit {0})
put_server w idx migrate server = do
  change (with_server_at idx server)
  calling (call (Clusters.vault_client server) (w.client server))
  rounds ← λ s. (ok (w.rounds s.1), s)
  unseal_until w server migrate rounds none

-- `c.servers[idx].Stop()`
unfoldable pub stop_at : VaultWorld → ℕ → Vaults (Unit {0})
stop_at w idx = do
  servers ← reading (λ c. c.servers)
  old ← lift (nth servers idx)
  calling (call (Clusters.stop old) (w.stop old))

-- `ReplaceNode`
unfoldable pub replace_node : VaultWorld → ℕ → Bool → Bool → Vaults (Unit {0})
replace_node w idx has_ca migrate = do
  stop_at w idx
  c ← reading (λ c. c)
  node ← lift (nth c.nodes idx)
  server ← start_vault w node (consul_addr_of c.consul_addrs idx) has_ca 3
  put_server w idx migrate server

-- `Clients`: the addresses of the clients, in the order of the servers.
unfoldable pub clients : VaultWorld → List Harness → Vaults (List String)
clients w [] = pure []
clients w (x ∷ servers) = do
  address ← calling (call (Clusters.vault_client x) (w.client x))
  rest ← clients w servers
  pure (address ∷ rest)

-- The search for the number of the leader, from number i, with the number found before.
unfoldable pub find_leader : String → ℕ → Option ℕ → List String → Result ℕ
find_leader leader i none [] = err (message "leader not found")
find_leader leader i (some l) [] = ok l
find_leader leader i none (address ∷ rest) =
    if str_eq address leader
    then find_leader leader (i + 1) (some i) rest
    else find_leader leader (i + 1) none rest
find_leader leader i (some l) (address ∷ rest) =
    if str_eq address leader
    then err (message "leader found twice")
    else find_leader leader (i + 1) (some l) rest

-- A text that is "" when there was an error.
abbrev pub text_or_empty : Result String → String
text_or_empty (ok t) = t
text_or_empty (err e) = ""

-- `leader, err := vault.Leader(c.servers)`
abbrev pub ask_leader : VaultWorld → List Harness → Exec Event (Result String)
ask_leader w servers h = (ok (w.leader servers h), Clusters.vault_leader servers ∷ h)

-- `if len(c.consulAddrs) == 0 { … }`
unfoldable pub autopilot_if_raft : VaultWorld → Vaults (Unit {0})
autopilot_if_raft w = do
  addrs ← reading (λ c. c.consul_addrs)
  if is_empty addrs then ask_autopilot w else pure tt

-- `ReplaceNode` and what follows each call of it in `ReplaceAllActiveLast`.
unfoldable pub replace_one : VaultWorld → ℕ → Bool → Vaults (Unit {0})
replace_one w i migrate = replace_node w i false migrate >> autopilot_if_raft w

-- The loop over all servers but the leader, from number i, for the rounds that are left.
unfoldable pub replace_others : VaultWorld → Bool → ℕ → ℕ → ℕ → Vaults (Unit {0})
replace_others w migrate leader zero i = pure tt
replace_others w migrate leader (suc rounds) i =
    if i == leader
    then replace_others w migrate leader rounds (i + 1)
    else replace_one w i migrate >> replace_others w migrate leader rounds (i + 1)

abbrev pub is_named : Result String → Bool
is_named (ok t) = if str_eq t "" then false else true
is_named (err e) = false

-- The wait for a new leader, for the rounds before the context ends.
unfoldable pub wait_leader : VaultWorld → ℕ → Vaults (Unit {0})
wait_leader w zero = pure tt
wait_leader w (suc rounds) = do
  servers ← reading (λ c. c.servers)
  leader ← calling (ask_leader w servers)
  if is_named leader then pure tt else wait_leader w rounds

-- The end of `ReplaceAllActiveLast`, from `StepDown`.
unfoldable pub replace_leader : VaultWorld → Harness → ℕ → Vaults (Unit {0})
replace_leader w server leader = do
  calling (call (Clusters.step_down server) (w.step_down server))
  rounds ← λ s. (ok (w.rounds s.1), s)
  wait_leader w rounds
  replace_one w leader false

-- The start of `ReplaceAllActiveLast`.
unfoldable pub leader_number : VaultWorld → List Harness → Vaults ℕ
leader_number w servers = do
  addresses ← clients w servers
  leader ← calling (ask_leader w servers)
  lift (find_leader (text_or_empty leader) 0 none addresses)

-- `ReplaceAllActiveLast`
unfoldable pub replace_all_active_last : VaultWorld → Bool → Vaults (Unit {0})
replace_all_active_last w migrate = do
  servers ← reading (λ c. c.servers)
  leader ← leader_number w servers
  server ← lift (nth servers leader)
  replace_others w migrate leader (length servers) 0
  replace_leader w server leader
