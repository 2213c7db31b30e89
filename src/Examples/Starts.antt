-- ===== src/Examples/Starts.antt =====
-- runner/exec/exec.go: processes.
use yurt.Prelude.{
  String, ◌≡◌, refl, none, List, [], ◌∷◌, ◌++◌, Dict, true, str_eq, if◌then◌else◌, insert,
  has_suffix, ◌<>◌,
}
use yurt.Effects.{Result, ok, err, no_address}
use yurt.Types.{Node, address, no_tls}
use yurt.Runner.{Config, ApiConfig, bare_config}
use yurt.Commands.Command.{Command, Encoders, with_config, args, env, files}
use yurt.Commands.Consul.{ConsulConfig}
use yurt.Commands.Consul
use yurt.Runners.Files.{Event, Answers, start_process, create_file}
use yurt.Runners.Exec.{ExecRunner, ExecHarness, start, endpoint}
use yurt.Runners.Exec.Starting.{start_ok, written, made}
use yurt.Runenv.Launching.{ExecEnv, exec_run, exec_config}
use yurt.Runenv.Launching.Addresses.{exec_run-address}
use yurt.Examples.Nodes.{consul_ports}

abbrev succeeding : Answers
succeeding = record {
  mkdir_all = λ dir h. ok tt;
  parse_pem = λ text h. ok tt;
  write_file = λ name h. ok tt;
  create_file = λ name h. ok tt;
  start_process = λ h. ok tt;
}

abbrev encoders : Encoders
encoders = record { consul_json = λ c. ok "{}"; nomad_json = λ c. ok "{}"; yaml = λ c. ok "" }

abbrev node_config : Config
node_config = record (bare_config consul_ports no_tls) {
  node_name = "consul-srv-1";
  config_dir = "/tmp/consul-srv-1/config";
  data_dir = "/tmp/consul-srv-1/data";
  log_dir = "/tmp/consul-srv-1/log";
}

abbrev agent : ConsulConfig
agent = Consul.new_config true ("127.0.0.1:8301" ∷ []) none

abbrev runner : ExecRunner
runner = record {
  command = Command.consul agent;
  config = node_config;
  bin_path = "/tmp/binaries/consul";
}

abbrev started : ExecHarness
started = record { config = node_config }

abbrev consul_files : Dict String
consul_files = ("common.hcl", Consul.common_hcl) ∷ []

abbrev events : List Event
events = (start succeeding encoders runner "/tmp/consul-srv-1/log/out.txt" []).1

files_there : files encoders (with_config runner.command runner.config) ≡ ok consul_files
unfolding Consul.files yurt.Commands.Files.add_tls_json Consul.tls_config insert
files_there = refl

started_well :
    start succeeding encoders runner "/tmp/consul-srv-1/log/out.txt" [] ≡ (ok started, events)
unfolding start Consul.files yurt.Runners.Files.make_dirs yurt.Commands.Files.add_tls_json
    Consul.tls_config yurt.Runners.Files.write_configs insert has_suffix
started_well = refl

start_ok_example :
    (started.config ≡ runner.config)
    × (events
        ≡ start_process runner.bin_path
            (args (with_config runner.command runner.config))
            (env (with_config runner.command runner.config))
            runner.config.config_dir
          ∷ ((if str_eq "/tmp/consul-srv-1/log/out.txt" ""
                then []
                else create_file "/tmp/consul-srv-1/log/out.txt" ∷ [])
              ++ (written runner.config.config_dir consul_files
                  ++ (made (runner.config.data_dir ∷ runner.config.log_dir ∷ []) ++ []))))
start_ok_example =
    start_ok succeeding encoders runner "/tmp/consul-srv-1/log/out.txt" [] events consul_files
      started files_there started_well

abbrev consul_config : Config
consul_config = bare_config consul_ports no_tls

abbrev consul_harness : ExecHarness
consul_harness = record { config = consul_config }

abbrev node : Node
node = record { name = "consul-srv-1"; ports = consul_ports; host = "127.0.0.1"; tls = none }

same_ports : consul_harness.config.ports ≡ node.ports
same_ports = refl

local_host : node.host ≡ "127.0.0.1"
local_host = refl

abbrev served : ApiConfig
served = record { scheme = "http"; host = "127.0.0.1:8500"; ca_file = "" }

abbrev exec_env : ExecEnv
exec_env = record { work_dir = "/tmp"; log_to_files = true }

abbrev finder : String → Result String
finder name = ok ("/tmp/binaries/" <> name)

abbrev run_events : List Event
run_events = (exec_run succeeding encoders finder exec_env "2022" (Command.consul agent) node []).1

abbrev running : ExecHarness
running = record { config = exec_config exec_env (Command.consul agent) node }

ran :
    exec_run succeeding encoders finder exec_env "2022" (Command.consul agent) node []
    ≡ (ok running, run_events)
unfolding exec_run start Consul.files Consul.new_config yurt.Runners.Files.make_dirs
    yurt.Commands.Files.add_tls_json Consul.tls_config yurt.Runners.Files.write_configs insert
    has_suffix
ran = refl

exec_run-address_example :
    address node "http"
    ≡ (elim (endpoint running "http") [ err e ↦ err (no_address "http") | ok a ↦ ok a.host ])
exec_run-address_example =
    exec_run-address succeeding encoders finder exec_env "2022" (Command.consul agent) node []
      run_events running "http" ran local_host
