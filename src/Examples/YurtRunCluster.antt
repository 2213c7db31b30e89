-- ===== src/Examples/YurtRunCluster.antt =====
-- cluster/dockeryurt.go: a cluster of two containers, of which the second one does not start.
use yurt.Prelude.{if◌then◌else◌, ◌≡◌, refl, str_eq, ◌<>◌, [], ◌∷◌, onto, show_int, split, false}
use yurt.Effects.{ok, err, external}
use yurt.Clusters.YurtRun.{YurtRunCluster, World, Event, start, stop, node_options}
use yurt.Programs.YurtRun.{Flags, flag_config}
use yurt.Programs.YurtRun.Addresses.{flag_config-node_options}
use yurt.Clusters.YurtRun.Cleaning.{launched, cleaned, ids, start-stop}

abbrev world : World
world = record {
  make_dir = λ dir h. ok tt;
  get_os_arch = λ name h. ok ("/root/bin/" <> name);
  start = λ opts h.
      if str_eq opts.ip "10.0.0.2"
      then err (external "address in use")
      else ok (record { id = "c" <> opts.container_name; networks = []; ports = [] });
  cleanup = λ id h. err (external "timeout");
}

abbrev cluster : YurtRunCluster
cluster = record {
  docker_net_name = "yurt";
  consul_server_ips = "10.0.0.1" ∷ "10.0.0.2" ∷ "10.0.0.3" ∷ [];
  base_image = "frolvlad/alpine-glibc";
  work_dir = "/tmp/yurt";
  containers = [];
}

one_listed : ids (start world (cluster, [])).1.0 ≡ "cyurt1" ∷ []
unfolding start yurt.Clusters.YurtRun.start_nodes yurt.Clusters.YurtRun.start_node
    yurt.Clusters.YurtRun.add_binaries yurt.Clusters.YurtRun.launch
    yurt.Clusters.YurtRun.node_options show_int
one_listed = refl

-- The error of the cleaning is returned, and the container was cleaned up once.
one_error :
    (stop world (start world (cluster, [])).1.0 (start world (cluster, [])).1.1).0
    ≡ external "timeout" ∷ []
unfolding start stop yurt.Clusters.YurtRun.stop_rounds yurt.Clusters.YurtRun.start_nodes
    yurt.Clusters.YurtRun.start_node yurt.Clusters.YurtRun.add_binaries yurt.Clusters.YurtRun.launch
    yurt.Clusters.YurtRun.node_options
one_error = refl

start-stop_example :
    (launched world (start world (cluster, [])).1.1
      ≡ onto (ids (start world (cluster, [])).1.0) (launched world []))
    × (cleaned (stop world (start world (cluster, [])).1.0 (start world (cluster, [])).1.1).1
        ≡ onto (ids (start world (cluster, [])).1.0) (cleaned []))
start-stop_example = start-stop world cluster [] refl

abbrev flags : Flags
flags = record {
  config_file = "";
  consul_bin = "";
  consul_ips = "10.0.0.1,10.0.0.2,10.0.0.3";
  data_dir = "/var/yurt";
  network_cidr = "";
  nomad_bin = "";
  tls = false;
  vault_addr = "";
}

three_addresses : cluster.consul_server_ips ≡ (flag_config flags).consul_server_ips
unfolding split
three_addresses = refl

flag_config-node_options_example :
    (node_options cluster 0 "10.0.0.1" []).cmd
    ≡ "-consul-server-ips=10.0.0.1,10.0.0.2,10.0.0.3" ∷ "-consul-bin=/bin/consul"
      ∷ "-nomad-bin=/bin/nomad" ∷ []
flag_config-node_options_example =
    flag_config-node_options flags cluster 0 "10.0.0.1" [] three_addresses
