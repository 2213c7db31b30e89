-- ===== src/Examples/Clusters.antt =====
-- cluster/cluster.go: clusters of two servers on the local host.
use yurt.Prelude.{
  ◌≡◌, refl, none, true, false, List, [], ◌∷◌, length, lookup_or, show_int, arith, insert,
}
use yurt.Effects.{ok, err, external}
use yurt.Types.{Node}
use yurt.Clusters.{World, Event}
use yurt.Clusters.Consul.{ConsulCluster, new_consul_cluster}
use yurt.Clusters.Consul.Allocating.{started, stopped}
use yurt.Clusters.Consul.Started.{new_consul_cluster_ok, Made}
use yurt.Clusters.Consul.Started.{newest_first}
use yurt.Runenv.Counters.{exec_counters}
use yurt.Clusters.Consul.Numbering.{
  in_exec_env, ran_on, requests, counters_after, Allocates, new_consul_cluster-exec_alloc_all,
}
use yurt.Clusters.Nomad.{new_nomad_cluster}
use yurt.Clusters.Nomad.Stopping.{stops, last_call, AllStopped}
use yurt.Clusters.Nomad.Failures.{new_nomad_cluster_failed}

-- All goes well but the health check of Nomad; a process is named by the number of calls before it.
abbrev world : World
world = record {
  alloc_node =
      λ name ports h. ok (record { name = name; ports = ports; host = "127.0.0.1"; tls = none });
  server_tls = λ purpose h. err (external "no authority");
  run = λ command node h. ok (length h);
  endpoint = λ harness h. ok "127.0.0.1:8500";
  consul_healthy = λ servers peers h. ok tt;
  nomad_healthy = λ servers peers h. err (external "deadline");
}

abbrev consul_cluster : ConsulCluster
consul_cluster = record {
  servers = 2 ∷ 4 ∷ [];
  join_addrs = "127.0.0.1:8301" ∷ "127.0.0.1:8301" ∷ [];
  peer_addrs = "127.0.0.1:8300" ∷ "127.0.0.1:8300" ∷ [];
  tls_ca = "";
}

abbrev consul_calls : List Event
consul_calls = (new_consul_cluster world false "test" 2 []).1

consul_cluster_made : new_consul_cluster world false "test" 2 [] ≡ (ok consul_cluster, consul_calls)
unfolding new_consul_cluster yurt.Clusters.Consul.alloc_nodes yurt.Clusters.Consul.alloc_one
    yurt.Types.address lookup_or yurt.Commands.Consul.runner_ports yurt.Commands.Consul.def_ports
    yurt.Clusters.Consul.start_servers yurt.Clusters.Consul.start_one yurt.Clusters.cluster_tls
    show_int
consul_cluster_made = refl

new_consul_cluster_ok_example : Made world 2 [] consul_cluster consul_calls
new_consul_cluster_ok_example =
    new_consul_cluster_ok world false "test" 2 [] consul_calls consul_cluster consul_cluster_made

abbrev nomad_calls : List Event
nomad_calls = (new_nomad_cluster world false "test" 2 consul_cluster []).1

nomad_cluster_failed :
    new_nomad_cluster world false "test" 2 consul_cluster []
    ≡ (err (external "deadline"), nomad_calls)
unfolding new_nomad_cluster yurt.Clusters.Nomad.alloc_nodes yurt.Clusters.Nomad.start_servers
    yurt.Clusters.Nomad.start_one yurt.Clusters.Consul.client_agent yurt.Clusters.cluster_tls
    yurt.Clusters.Nomad.start_with_agent
nomad_cluster_failed = refl

four_started : length (started nomad_calls) ≡ 4
unfolding new_nomad_cluster yurt.Clusters.Nomad.alloc_nodes yurt.Clusters.Nomad.start_servers
    yurt.Clusters.Nomad.start_one yurt.Clusters.Consul.client_agent yurt.Clusters.cluster_tls
    yurt.Clusters.Nomad.start_with_agent yurt.Clusters.Nomad.stop_all yurt.Clusters.Nomad.stop_each
four_started = refl

new_nomad_cluster_failed_example :
    ((stops (last_call nomad_calls) ≡ true) → AllStopped nomad_calls)
    × ((stops (last_call nomad_calls) ≡ false) → stopped nomad_calls ≡ [])
new_nomad_cluster_failed_example =
    new_nomad_cluster_failed world false "test" 2 consul_cluster (external "deadline") nomad_calls
      nomad_cluster_failed

-- The same cluster on the local host, with the counters of an `ExecEnv` from port 8000 on.
abbrev exec_cluster : ConsulCluster
exec_cluster = record {
  servers = 2 ∷ 4 ∷ [];
  join_addrs = "127.0.0.1:8001" ∷ "127.0.0.1:8006" ∷ [];
  peer_addrs = "127.0.0.1:8000" ∷ "127.0.0.1:8005" ∷ [];
  tls_ca = "";
}

abbrev exec_calls : List Event
exec_calls = (new_consul_cluster (in_exec_env world (exec_counters 8000)) false "test" 2 []).1

exec_cluster_made :
    new_consul_cluster (in_exec_env world (exec_counters 8000)) false "test" 2 []
    ≡ (ok exec_cluster, exec_calls)
unfolding new_consul_cluster yurt.Clusters.Consul.alloc_nodes yurt.Clusters.Consul.alloc_one
    yurt.Types.address lookup_or yurt.Runenv.Counters.exec_alloc yurt.Types.sequential
    yurt.Commands.Consul.runner_ports insert yurt.Clusters.Consul.start_servers
    yurt.Clusters.Consul.start_one yurt.Clusters.cluster_tls show_int
exec_cluster_made = refl

new_consul_cluster-exec_alloc_all_example :
    (nodes : List Node) × (ran_on exec_calls ≡ newest_first nodes [])
    × Allocates
        (exec_counters 8000)
        (requests "test" 2)
        nodes
        (counters_after (exec_counters 8000) exec_calls)
new_consul_cluster-exec_alloc_all_example =
    new_consul_cluster-exec_alloc_all world (exec_counters 8000) false "test" 2 [] exec_calls
      exec_cluster (omega arith) exec_cluster_made
