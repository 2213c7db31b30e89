-- ===== src/Examples/CombinedClusters.antt =====
-- cluster/cluster.go: a Consul cluster and a Vault cluster made together.
use yurt.Prelude.{◌≡◌, refl, none, some, false, List, [], ◌∷◌, length, lookup_or, show_int}
use yurt.Effects.{Result, ok, err, external, panic}
use yurt.Clusters.{World, Event, Harness}
use yurt.Clusters.Nomad.{stop_each}
use yurt.Clusters.Consul.Allocating.{started, stopped}
use yurt.Clusters.Vault.{VaultWorld, nth}
use yurt.Clusters.Combined.{ConsulVaultCluster, no_agents, new_consul_vault_cluster}
use yurt.Clusters.Combined.ConsulVault.{Combined, new_consul_vault_cluster_ok}
use yurt.Examples.VaultClusters.{world, vaults}

abbrev calls : List Event
calls = (new_consul_vault_cluster vaults false "test" 2 none []).1

abbrev made : Result ConsulVaultCluster → ConsulVaultCluster
made (ok c) = c
made (err e) = no_agents "" (record { servers = []; join_addrs = []; peer_addrs = []; tls_ca = "" })

abbrev both : ConsulVaultCluster
both = made (new_consul_vault_cluster vaults false "test" 2 none []).0

both_made : new_consul_vault_cluster vaults false "test" 2 none [] ≡ (ok both, calls)
unfolding new_consul_vault_cluster yurt.Clusters.Combined.start_agent
    yurt.Clusters.Combined.start_agents yurt.Clusters.Combined.stop_consul_vault
    yurt.Clusters.Combined.stop_consul yurt.Clusters.Consul.new_consul_cluster
    yurt.Clusters.Consul.alloc_nodes yurt.Clusters.Consul.alloc_one
    yurt.Clusters.Consul.start_servers yurt.Clusters.Consul.start_one
    yurt.Clusters.Consul.client_agent yurt.Commands.Consul.runner_ports
    yurt.Commands.Consul.def_ports yurt.Clusters.Vault.Creating.new_vault_cluster
    yurt.Clusters.Vault.Creating.or_stop yurt.Clusters.Vault.Creating.create
    yurt.Clusters.Vault.Creating.initialize_first yurt.Clusters.Vault.Creating.unseal_first
    yurt.Clusters.Vault.Creating.unseal_once yurt.Clusters.Vault.Creating.ask_autopilot
    yurt.Clusters.Vault.Creating.check yurt.Clusters.Vault.Creating.join_others
    yurt.Clusters.Vault.Joining.give_up yurt.Clusters.Vault.Joining.give_up_all
    yurt.Clusters.Vault.Joining.is_waiting yurt.Clusters.Vault.Joining.join_rest
    yurt.Clusters.Vault.Joining.remove yurt.Clusters.Vault.Joining.take_turn
    yurt.Clusters.Vault.Joining.take_turns yurt.Clusters.Vault.Joining.try_unseal
    yurt.Clusters.Vault.Joining.wait_all yurt.Clusters.Vault.Joining.yield
    yurt.Clusters.Vault.alloc_nodes yurt.Clusters.Vault.alloc_one yurt.Clusters.Vault.join
    yurt.Clusters.Vault.add_node yurt.Clusters.Vault.start_vault yurt.Clusters.Vault.client_status
    yurt.Clusters.Vault.consul_addr_of yurt.Clusters.Vault.vault_config nth stop_each lookup_or
    show_int yurt.Types.address yurt.Commands.Vault.runner_ports yurt.Commands.Vault.def_ports
    yurt.Clusters.cluster_tls yurt.Commands.Vault.new_consul_config
    yurt.Commands.Vault.new_raft_config yurt.Prelude.decimal yurt.Prelude.lookup
both_made = refl

new_consul_vault_cluster_ok_example : Combined vaults 2 none [] both calls
new_consul_vault_cluster_ok_example =
    new_consul_vault_cluster_ok vaults false "test" 2 none [] calls both both_made

-- When the endpoint of an agent fails, the code panics and leaves the Consul servers and the agent.
abbrev no_endpoint : VaultWorld
no_endpoint = record vaults {
  world = record world { endpoint = λ harness h. err (external "no endpoint") };
}

endpoint_panics :
    (new_consul_vault_cluster no_endpoint false "test" 2 none []).0
    ≡ err (panic "nil pointer dereference")
unfolding new_consul_vault_cluster yurt.Clusters.Combined.start_agent
    yurt.Clusters.Combined.start_agents yurt.Clusters.Combined.stop_consul_vault
    yurt.Clusters.Combined.stop_consul yurt.Clusters.Consul.new_consul_cluster
    yurt.Clusters.Consul.alloc_nodes yurt.Clusters.Consul.alloc_one
    yurt.Clusters.Consul.start_servers yurt.Clusters.Consul.start_one
    yurt.Clusters.Consul.client_agent yurt.Commands.Consul.runner_ports
    yurt.Commands.Consul.def_ports yurt.Clusters.Vault.Creating.new_vault_cluster
    yurt.Clusters.Vault.Creating.or_stop yurt.Clusters.Vault.Creating.create
    yurt.Clusters.Vault.Creating.initialize_first yurt.Clusters.Vault.Creating.unseal_first
    yurt.Clusters.Vault.Creating.unseal_once yurt.Clusters.Vault.Creating.ask_autopilot
    yurt.Clusters.Vault.Creating.check yurt.Clusters.Vault.Creating.join_others
    yurt.Clusters.Vault.Joining.give_up yurt.Clusters.Vault.Joining.give_up_all
    yurt.Clusters.Vault.Joining.is_waiting yurt.Clusters.Vault.Joining.join_rest
    yurt.Clusters.Vault.Joining.remove yurt.Clusters.Vault.Joining.take_turn
    yurt.Clusters.Vault.Joining.take_turns yurt.Clusters.Vault.Joining.try_unseal
    yurt.Clusters.Vault.Joining.wait_all yurt.Clusters.Vault.Joining.yield
    yurt.Clusters.Vault.alloc_nodes yurt.Clusters.Vault.alloc_one yurt.Clusters.Vault.join
    yurt.Clusters.Vault.add_node yurt.Clusters.Vault.start_vault yurt.Clusters.Vault.client_status
    yurt.Clusters.Vault.consul_addr_of yurt.Clusters.Vault.vault_config nth stop_each lookup_or
    show_int yurt.Types.address yurt.Commands.Vault.runner_ports yurt.Commands.Vault.def_ports
    yurt.Clusters.cluster_tls yurt.Commands.Vault.new_consul_config
    yurt.Commands.Vault.new_raft_config yurt.Prelude.decimal yurt.Prelude.lookup
endpoint_panics = refl

three_left :
    (length (started (new_consul_vault_cluster no_endpoint false "test" 2 none []).1) ≡ 3)
    × (stopped (new_consul_vault_cluster no_endpoint false "test" 2 none []).1 ≡ [])
unfolding new_consul_vault_cluster yurt.Clusters.Combined.start_agent
    yurt.Clusters.Combined.start_agents yurt.Clusters.Combined.stop_consul_vault
    yurt.Clusters.Combined.stop_consul yurt.Clusters.Consul.new_consul_cluster
    yurt.Clusters.Consul.alloc_nodes yurt.Clusters.Consul.alloc_one
    yurt.Clusters.Consul.start_servers yurt.Clusters.Consul.start_one
    yurt.Clusters.Consul.client_agent yurt.Commands.Consul.runner_ports
    yurt.Commands.Consul.def_ports yurt.Clusters.Vault.Creating.new_vault_cluster
    yurt.Clusters.Vault.Creating.or_stop yurt.Clusters.Vault.Creating.create
    yurt.Clusters.Vault.Creating.initialize_first yurt.Clusters.Vault.Creating.unseal_first
    yurt.Clusters.Vault.Creating.unseal_once yurt.Clusters.Vault.Creating.ask_autopilot
    yurt.Clusters.Vault.Creating.check yurt.Clusters.Vault.Creating.join_others
    yurt.Clusters.Vault.Joining.give_up yurt.Clusters.Vault.Joining.give_up_all
    yurt.Clusters.Vault.Joining.is_waiting yurt.Clusters.Vault.Joining.join_rest
    yurt.Clusters.Vault.Joining.remove yurt.Clusters.Vault.Joining.take_turn
    yurt.Clusters.Vault.Joining.take_turns yurt.Clusters.Vault.Joining.try_unseal
    yurt.Clusters.Vault.Joining.wait_all yurt.Clusters.Vault.Joining.yield
    yurt.Clusters.Vault.alloc_nodes yurt.Clusters.Vault.alloc_one yurt.Clusters.Vault.join
    yurt.Clusters.Vault.add_node yurt.Clusters.Vault.start_vault yurt.Clusters.Vault.client_status
    yurt.Clusters.Vault.consul_addr_of yurt.Clusters.Vault.vault_config nth stop_each lookup_or
    show_int yurt.Types.address yurt.Commands.Vault.runner_ports yurt.Commands.Vault.def_ports
    yurt.Clusters.cluster_tls yurt.Commands.Vault.new_consul_config
    yurt.Commands.Vault.new_raft_config yurt.Prelude.decimal yurt.Prelude.lookup
three_left = (refl, refl)
