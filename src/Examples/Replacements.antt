-- ===== src/Examples/Replacements.antt =====
-- cluster/cluster.go: goroutines that unseal, and the replacement of all servers.
use yurt.Prelude.{
  if◌then◌else◌, ◌≡◌, refl, ◌==◌, ltb, ℕ, String, none, some, Bool, true, false, List, [], ◌∷◌,
  length, set, lookup_or, show_int, ◌+◌, ◌↔◌,
}
use yurt.Effects.{Result, ok, err, external}
use yurt.Types.{Ports, Node}
use yurt.Clusters.{World, Event, Harness}
use yurt.Clusters.Nomad.{stop_each}
use yurt.Clusters.Consul.Allocating.{stopped}
use yurt.Clusters.Vault.{VaultCluster, VaultWorld, Turn, attempt, expire, nth, vault_ports}
use yurt.Clusters.Vault.Joining.{Group, join_rest, wait_all}
use yurt.Clusters.Vault.Clients.{Only, wait_all_last}
use yurt.Clusters.Vault.Quiet.{State}
use yurt.Clusters.Vault.Replacing.{find_leader, replace_all_active_last}
use yurt.Clusters.Vault.Replacing.Leaders.{find_leader_iff, OnlyAt}

abbrev world : World
world = record {
  alloc_node =
      λ name ports h. ok (record { name = name; ports = ports; host = "127.0.0.1"; tls = none });
  server_tls = λ purpose h. err (external "no authority");
  run = λ command node h. ok (length h);
  endpoint = λ harness h. ok "127.0.0.1:8500";
  consul_healthy = λ servers peers h. ok tt;
  nomad_healthy = λ servers peers h. ok tt;
}

-- The goroutines take no step while the second server joins, and their first two calls fail.
abbrev vaults : VaultWorld
vaults = record {
  world = world;
  client = λ harness h.
      ok (if harness == 101 then "https://127.0.0.1:8201" else "https://127.0.0.1:8200");
  status = λ harness h. ok (record { sealed = true; initialized = true });
  initialize = λ harness seal h. ok ("root", "key" ∷ []);
  unseal = λ harness key migrate h.
      if ltb (length h) 10 then some (external "connection refused") else none;
  healthy = λ servers h. ok tt;
  leader = λ servers h. ok "https://127.0.0.1:8201";
  autopilot_healthy = λ servers token h. ok tt;
  step_down = λ harness h. ok tt;
  stop = λ harness h. ok tt;
  turns = λ h. if length h == 4 then [] else attempt 1 ∷ attempt 2 ∷ [];
  rounds = λ h. 20;
  ended = "context deadline exceeded";
}

abbrev node : String → Node
node name = record { name = name; ports = vault_ports; host = "127.0.0.1"; tls = none }

abbrev three_nodes : List Node
three_nodes = node "a" ∷ node "b" ∷ node "c" ∷ []

abbrev cluster : VaultCluster
cluster = record {
  nodes = three_nodes;
  servers = 100 ∷ [];
  join_addrs = [];
  consul_addrs = [];
  root_token = "root";
  unseal_keys = "key" ∷ [];
  seal = none;
  old_seal = none;
}

abbrev first_server : Group
first_server = record { client = 100; last_error = none; waiting = []; failed = none }

abbrev joined_state : State
joined_state = (join_rest vaults three_nodes false 0 2 1 first_server (cluster, [])).1

abbrev group_of : Result Group → Group
group_of (ok g) = g
group_of (err e) = first_server

abbrev joined_group : Group
joined_group = group_of (join_rest vaults three_nodes false 0 2 1 first_server (cluster, [])).0

two_joined :
    join_rest vaults three_nodes false 0 2 1 first_server (cluster, [])
    ≡ (ok joined_group, joined_state)
unfolding yurt.Clusters.Vault.Joining.give_up yurt.Clusters.Vault.Joining.give_up_all
    yurt.Clusters.Vault.Joining.is_waiting yurt.Clusters.Vault.Joining.join_rest
    yurt.Clusters.Vault.Joining.remove yurt.Clusters.Vault.Joining.take_turn
    yurt.Clusters.Vault.Joining.take_turns yurt.Clusters.Vault.Joining.try_unseal
    yurt.Clusters.Vault.Joining.wait_all yurt.Clusters.Vault.Joining.yield yurt.Clusters.Vault.join
    yurt.Clusters.Vault.add_node yurt.Clusters.Vault.start_vault yurt.Clusters.Vault.client_status
    yurt.Clusters.Vault.consul_addr_of yurt.Clusters.Vault.vault_config nth stop_each lookup_or
    show_int yurt.Types.address yurt.Commands.Vault.runner_ports yurt.Commands.Vault.def_ports
    yurt.Clusters.cluster_tls yurt.Commands.Vault.new_consul_config
    yurt.Commands.Vault.new_raft_config yurt.Prelude.decimal yurt.Prelude.lookup
two_joined = refl

-- Both goroutines wait, and the server that they unseal is the last one.
both_wait :
    (joined_group.waiting ≡ 1 ∷ 2 ∷ [])
    × (joined_state.0.servers ≡ 100 ∷ 0 ∷ 4 ∷ [])
    × (joined_group.client ≡ 4)
unfolding yurt.Clusters.Vault.Joining.give_up yurt.Clusters.Vault.Joining.give_up_all
    yurt.Clusters.Vault.Joining.is_waiting yurt.Clusters.Vault.Joining.join_rest
    yurt.Clusters.Vault.Joining.remove yurt.Clusters.Vault.Joining.take_turn
    yurt.Clusters.Vault.Joining.take_turns yurt.Clusters.Vault.Joining.try_unseal
    yurt.Clusters.Vault.Joining.wait_all yurt.Clusters.Vault.Joining.yield yurt.Clusters.Vault.join
    yurt.Clusters.Vault.add_node yurt.Clusters.Vault.start_vault yurt.Clusters.Vault.client_status
    yurt.Clusters.Vault.consul_addr_of yurt.Clusters.Vault.vault_config nth stop_each lookup_or
    show_int yurt.Types.address yurt.Commands.Vault.runner_ports yurt.Commands.Vault.def_ports
    yurt.Clusters.cluster_tls yurt.Commands.Vault.new_consul_config
    yurt.Commands.Vault.new_raft_config yurt.Prelude.decimal yurt.Prelude.lookup
both_wait = (refl, refl, refl)

wait_all_last_example :
    (x : Harness) × (nth joined_state.0.servers (1 + 1) ≡ ok x)
    × Only x joined_state.1 (wait_all vaults joined_group joined_state).1.1
wait_all_last_example =
    wait_all_last vaults three_nodes false 0 1 1 first_server joined_group (cluster, [])
      joined_state two_joined

find_leader_iff_example :
    (find_leader "b" 0 none ("a" ∷ "b" ∷ "c" ∷ []) ≡ ok 1) ↔ OnlyAt 1 "b" ("a" ∷ "b" ∷ "c" ∷ [])
find_leader_iff_example = find_leader_iff "b" 1 ("a" ∷ "b" ∷ "c" ∷ [])

-- Three servers, the second of them the leader.
abbrev three_servers : State
three_servers = (record cluster { servers = 100 ∷ 101 ∷ 102 ∷ [] }, [])

abbrev replaced : State
replaced = (replace_all_active_last vaults true three_servers).1

leader_stopped_last : stopped replaced.1 ≡ 101 ∷ 102 ∷ 100 ∷ []
unfolding yurt.Clusters.Vault.Replacing.unseal_until yurt.Clusters.Vault.Replacing.put_server
    yurt.Clusters.Vault.Replacing.stop_at yurt.Clusters.Vault.Replacing.replace_node
    yurt.Clusters.Vault.Replacing.clients yurt.Clusters.Vault.Replacing.find_leader
    yurt.Clusters.Vault.Replacing.autopilot_if_raft yurt.Clusters.Vault.Replacing.replace_one
    yurt.Clusters.Vault.Replacing.replace_others yurt.Clusters.Vault.Replacing.wait_leader
    yurt.Clusters.Vault.Replacing.replace_leader yurt.Clusters.Vault.Replacing.leader_number
    yurt.Clusters.Vault.Replacing.replace_all_active_last yurt.Clusters.Vault.Creating.ask_autopilot
    yurt.Clusters.Vault.join yurt.Clusters.Vault.add_node yurt.Clusters.Vault.start_vault
    yurt.Clusters.Vault.client_status yurt.Clusters.Vault.consul_addr_of
    yurt.Clusters.Vault.vault_config nth stop_each lookup_or show_int yurt.Types.address
    yurt.Commands.Vault.runner_ports yurt.Commands.Vault.def_ports yurt.Clusters.cluster_tls
    yurt.Commands.Vault.new_consul_config yurt.Commands.Vault.new_raft_config yurt.Prelude.decimal
    yurt.Prelude.lookup
leader_stopped_last = refl
