-- ===== src/Examples/Programs.antt =====
-- cmd/yurt-run/main.go: a node with the address of the first of three Consul servers.
use yurt.Prelude.{◌≡◌, refl, String, false, List, [], ◌∷◌, contains, split, before_last}
use yurt.Effects.{Result, ok, err, external, message}
use yurt.Programs.YurtRun.{Flags, Event, Host, YurtConfig, main, flag_config}
use yurt.Programs.YurtRun.ConfigFile.{main-config_file}
use yurt.Programs.YurtRun.Agents.{Located}
use yurt.Programs.YurtRun.Running.{main_ok, Running}

-- Addresses are texts, and the network has three of them.
abbrev host : Host
host = record {
  Addr = String;
  parse = λ t. ok t;
  within = λ network a. contains ("10.0.0.1" ∷ "10.0.0.2" ∷ "10.0.0.3" ∷ []) a;
  interfaces = ok ("127.0.0.1" ∷ "10.0.0.1" ∷ []);
  ip = λ a. a;
  load_config = λ path h. err (external "no such file");
  read_file = λ path h. err (external "no such file");
  parses = λ text. false;
  new_authority = λ addr h. ok tt;
  consul_server_tls = λ ip ttl h. err (external "no authority");
  write_file = λ path text h. ok tt;
  new_env = λ dir h. ok tt;
  hostname = λ h. ok "node1";
  run = λ command name h. ok tt;
}

abbrev flags : Flags
flags = record {
  config_file = "";
  consul_bin = "";
  consul_ips = "10.0.0.1,10.0.0.2,10.0.0.3";
  data_dir = "/var/yurt";
  network_cidr = "";
  nomad_bin = "";
  tls = false;
  vault_addr = "";
}

abbrev outcome : Result YurtConfig → YurtConfig
outcome (ok c) = c
outcome (err e) = flag_config flags

abbrev node : YurtConfig
node = outcome (main host flags []).0

abbrev calls : List Event
calls = (main host flags []).1

node_runs : main host flags [] ≡ (ok node, calls)
unfolding main yurt.Programs.YurtRun.choose_config yurt.Programs.YurtRun.locate
    yurt.Programs.YurtRun.network_cidr split before_last yurt.Programs.YurtRun.wrap_error
    yurt.Programs.YurtRun.check_ips yurt.Programs.YurtRun.find_ip yurt.Programs.YurtRun.own_ip
    yurt.Programs.YurtRun.secure yurt.Programs.YurtRun.run_agent
node_runs = refl

network_derived : (node.network_cidr ≡ "10.0.0.0/24") × (node.server_ip ≡ "10.0.0.1")
unfolding main yurt.Programs.YurtRun.choose_config yurt.Programs.YurtRun.locate
    yurt.Programs.YurtRun.network_cidr split before_last yurt.Programs.YurtRun.wrap_error
    yurt.Programs.YurtRun.check_ips yurt.Programs.YurtRun.find_ip yurt.Programs.YurtRun.own_ip
    yurt.Programs.YurtRun.secure yurt.Programs.YurtRun.run_agent
network_derived = (refl, refl)

main_ok_example : Located host node × Running node calls
main_ok_example = main_ok host flags [] calls node node_runs

main-config_file_example :
    main host (record flags { config_file = "/etc/yurt.yml"; consul_ips = "" }) []
    ≡ (err (message "cannot provide other arguments along with -config-file"), [])
main-config_file_example =
    main-config_file host (record flags { config_file = "/etc/yurt.yml"; consul_ips = "" }) [] refl
