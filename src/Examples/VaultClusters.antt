-- ===== src/Examples/VaultClusters.antt =====
-- cluster/cluster.go: clusters of two Vault servers on the local host.
use yurt.Prelude.{
  ◌≡◌, refl, ℕ, none, some, Bool, true, false, List, [], ◌∷◌, length, lookup_or, show_int,
  if◌then◌else◌, ◌==◌,
}
use yurt.Effects.{Result, ok, err, external}
use yurt.Types.{Node}
use yurt.Clusters.{World, Event, Harness}
use yurt.Clusters.Nomad.{stop_each}
use yurt.Clusters.Consul.Allocating.{started, stopped}
use yurt.Clusters.Vault.{VaultCluster, VaultWorld, Turn, attempt, expire, nth}
use yurt.Clusters.Vault.Creating.{new_vault_cluster, no_servers, is_panic}
use yurt.Clusters.Vault.Failures.{new_vault_cluster_failed, StoppedSince}
use yurt.Clusters.Vault.Created.{new_vault_cluster_ok, Created}

-- A process is named by the number of calls before it.
abbrev pub world : World
world = record {
  alloc_node =
      λ name ports h. ok (record { name = name; ports = ports; host = "127.0.0.1"; tls = none });
  server_tls = λ purpose h. err (external "no authority");
  run = λ command node h. ok (length h);
  endpoint = λ harness h. ok "127.0.0.1:8500";
  consul_healthy = λ servers peers h. ok tt;
  nomad_healthy = λ servers peers h. ok tt;
}

-- All goes well; the goroutine of the second server makes one call whenever it can.
abbrev pub vaults : VaultWorld
vaults = record {
  world = world;
  client =
      λ harness h. ok (if harness == 2 then "https://127.0.0.1:8200" else "https://127.0.0.1:8201");
  status = λ harness h. ok (record { sealed = true; initialized = false });
  initialize = λ harness seal h. ok ("root", "key" ∷ []);
  unseal = λ harness key migrate h. none;
  healthy = λ servers h. ok tt;
  leader = λ servers h. ok "https://127.0.0.1:8201";
  autopilot_healthy = λ servers token h. ok tt;
  step_down = λ harness h. ok tt;
  stop = λ harness h. ok tt;
  turns = λ h. attempt 1 ∷ [];
  rounds = λ h. 3;
  ended = "context deadline exceeded";
}

-- No cluster gets healthy.
abbrev ill : VaultWorld
ill = record vaults { healthy = λ servers h. err (external "no leader") }

abbrev calls : List Event
calls = (new_vault_cluster vaults false "test" 2 [] none 0 []).1

abbrev is_made : Result VaultCluster → VaultCluster
is_made (ok c) = c
is_made (err e) = no_servers [] none

abbrev two_servers : VaultCluster
two_servers = is_made (new_vault_cluster vaults false "test" 2 [] none 0 []).0

cluster_made : new_vault_cluster vaults false "test" 2 [] none 0 [] ≡ (ok two_servers, calls)
unfolding new_vault_cluster yurt.Clusters.Vault.Creating.or_stop yurt.Clusters.Vault.Creating.create
    yurt.Clusters.Vault.Creating.initialize_first yurt.Clusters.Vault.Creating.unseal_first
    yurt.Clusters.Vault.Creating.unseal_once yurt.Clusters.Vault.Creating.ask_autopilot
    yurt.Clusters.Vault.Creating.check yurt.Clusters.Vault.Creating.join_others
    yurt.Clusters.Vault.Joining.give_up yurt.Clusters.Vault.Joining.give_up_all
    yurt.Clusters.Vault.Joining.is_waiting yurt.Clusters.Vault.Joining.join_rest
    yurt.Clusters.Vault.Joining.remove yurt.Clusters.Vault.Joining.take_turn
    yurt.Clusters.Vault.Joining.take_turns yurt.Clusters.Vault.Joining.try_unseal
    yurt.Clusters.Vault.Joining.wait_all yurt.Clusters.Vault.Joining.yield
    yurt.Clusters.Vault.alloc_nodes yurt.Clusters.Vault.alloc_one yurt.Clusters.Vault.join
    yurt.Clusters.Vault.add_node yurt.Clusters.Vault.start_vault yurt.Clusters.Vault.client_status
    yurt.Clusters.Vault.consul_addr_of yurt.Clusters.Vault.vault_config nth stop_each lookup_or
    show_int yurt.Types.address yurt.Commands.Vault.runner_ports yurt.Commands.Vault.def_ports
    yurt.Clusters.cluster_tls yurt.Commands.Vault.new_consul_config
    yurt.Commands.Vault.new_raft_config yurt.Prelude.decimal yurt.Prelude.lookup
cluster_made = refl

names : two_servers.servers ≡ 2 ∷ 9 ∷ []
unfolding new_vault_cluster yurt.Clusters.Vault.Creating.or_stop yurt.Clusters.Vault.Creating.create
    yurt.Clusters.Vault.Creating.initialize_first yurt.Clusters.Vault.Creating.unseal_first
    yurt.Clusters.Vault.Creating.unseal_once yurt.Clusters.Vault.Creating.ask_autopilot
    yurt.Clusters.Vault.Creating.check yurt.Clusters.Vault.Creating.join_others
    yurt.Clusters.Vault.Joining.give_up yurt.Clusters.Vault.Joining.give_up_all
    yurt.Clusters.Vault.Joining.is_waiting yurt.Clusters.Vault.Joining.join_rest
    yurt.Clusters.Vault.Joining.remove yurt.Clusters.Vault.Joining.take_turn
    yurt.Clusters.Vault.Joining.take_turns yurt.Clusters.Vault.Joining.try_unseal
    yurt.Clusters.Vault.Joining.wait_all yurt.Clusters.Vault.Joining.yield
    yurt.Clusters.Vault.alloc_nodes yurt.Clusters.Vault.alloc_one yurt.Clusters.Vault.join
    yurt.Clusters.Vault.add_node yurt.Clusters.Vault.start_vault yurt.Clusters.Vault.client_status
    yurt.Clusters.Vault.consul_addr_of yurt.Clusters.Vault.vault_config nth stop_each lookup_or
    show_int yurt.Types.address yurt.Commands.Vault.runner_ports yurt.Commands.Vault.def_ports
    yurt.Clusters.cluster_tls yurt.Commands.Vault.new_consul_config
    yurt.Commands.Vault.new_raft_config yurt.Prelude.decimal yurt.Prelude.lookup
names = refl

new_vault_cluster_ok_example : Created vaults 0 2 (no_servers [] none) [] two_servers calls
new_vault_cluster_ok_example =
    new_vault_cluster_ok vaults false "test" 2 [] none 0 [] calls two_servers cluster_made

abbrev ill_calls : List Event
ill_calls = (new_vault_cluster ill false "test" 2 [] none 0 []).1

cluster_failed :
    new_vault_cluster ill false "test" 2 [] none 0 [] ≡ (err (external "no leader"), ill_calls)
unfolding new_vault_cluster yurt.Clusters.Vault.Creating.or_stop yurt.Clusters.Vault.Creating.create
    yurt.Clusters.Vault.Creating.initialize_first yurt.Clusters.Vault.Creating.unseal_first
    yurt.Clusters.Vault.Creating.unseal_once yurt.Clusters.Vault.Creating.ask_autopilot
    yurt.Clusters.Vault.Creating.check yurt.Clusters.Vault.Creating.join_others
    yurt.Clusters.Vault.Joining.give_up yurt.Clusters.Vault.Joining.give_up_all
    yurt.Clusters.Vault.Joining.is_waiting yurt.Clusters.Vault.Joining.join_rest
    yurt.Clusters.Vault.Joining.remove yurt.Clusters.Vault.Joining.take_turn
    yurt.Clusters.Vault.Joining.take_turns yurt.Clusters.Vault.Joining.try_unseal
    yurt.Clusters.Vault.Joining.wait_all yurt.Clusters.Vault.Joining.yield
    yurt.Clusters.Vault.alloc_nodes yurt.Clusters.Vault.alloc_one yurt.Clusters.Vault.join
    yurt.Clusters.Vault.add_node yurt.Clusters.Vault.start_vault yurt.Clusters.Vault.client_status
    yurt.Clusters.Vault.consul_addr_of yurt.Clusters.Vault.vault_config nth stop_each lookup_or
    show_int yurt.Types.address yurt.Commands.Vault.runner_ports yurt.Commands.Vault.def_ports
    yurt.Clusters.cluster_tls yurt.Commands.Vault.new_consul_config
    yurt.Commands.Vault.new_raft_config yurt.Prelude.decimal yurt.Prelude.lookup
cluster_failed = refl

-- One server was started, and stopped again.
one_stopped : (started ill_calls ≡ 2 ∷ []) × (stopped ill_calls ≡ 2 ∷ [])
unfolding new_vault_cluster yurt.Clusters.Vault.Creating.or_stop yurt.Clusters.Vault.Creating.create
    yurt.Clusters.Vault.Creating.initialize_first yurt.Clusters.Vault.Creating.unseal_first
    yurt.Clusters.Vault.Creating.unseal_once yurt.Clusters.Vault.Creating.ask_autopilot
    yurt.Clusters.Vault.Creating.check yurt.Clusters.Vault.Creating.join_others
    yurt.Clusters.Vault.Joining.give_up yurt.Clusters.Vault.Joining.give_up_all
    yurt.Clusters.Vault.Joining.is_waiting yurt.Clusters.Vault.Joining.join_rest
    yurt.Clusters.Vault.Joining.remove yurt.Clusters.Vault.Joining.take_turn
    yurt.Clusters.Vault.Joining.take_turns yurt.Clusters.Vault.Joining.try_unseal
    yurt.Clusters.Vault.Joining.wait_all yurt.Clusters.Vault.Joining.yield
    yurt.Clusters.Vault.alloc_nodes yurt.Clusters.Vault.alloc_one yurt.Clusters.Vault.join
    yurt.Clusters.Vault.add_node yurt.Clusters.Vault.start_vault yurt.Clusters.Vault.client_status
    yurt.Clusters.Vault.consul_addr_of yurt.Clusters.Vault.vault_config nth stop_each lookup_or
    show_int yurt.Types.address yurt.Commands.Vault.runner_ports yurt.Commands.Vault.def_ports
    yurt.Clusters.cluster_tls yurt.Commands.Vault.new_consul_config
    yurt.Commands.Vault.new_raft_config yurt.Prelude.decimal yurt.Prelude.lookup
one_stopped = (refl, refl)

new_vault_cluster_failed_example :
    (is_panic (external "no leader") ≡ false → StoppedSince [] ill_calls)
    × (is_panic (external "no leader") ≡ true → stopped ill_calls ≡ stopped [])
new_vault_cluster_failed_example =
    new_vault_cluster_failed ill false "test" 2 [] none 0 [] ill_calls (external "no leader")
      cluster_failed
