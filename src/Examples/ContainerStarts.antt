-- ===== src/Examples/ContainerStarts.antt =====
-- runner/docker/docker.go: the start of a container.
use yurt.Prelude.{
  ◌++◌, ◌≡◌, refl, none, List, [], ◌∷◌, true, Dict, String, insert, has_suffix, lookup,
}
use yurt.Effects.{ok}
use yurt.Types.{no_tls}
use yurt.Runner.{bare_config, Config, join}
use yurt.Docker.Container
use yurt.Docker.Container.{RunOptions, ContainerJson, run, copy_all, net_mode}
use yurt.Runners.Docker.{
  DockerHarness, DockerRunner, DockerAnswers, start, run_options, node_copies,
}
use yurt.Commands.Consul
use yurt.Commands.Command.{Command, Encoders, files, with_config}
use yurt.Runners.Files
use yurt.Runners.Files.{Answers}
use yurt.Runners.Exec.Starting.{written}
use yurt.Runners.Docker.Starting.{docker_start_ok, removed, made_all}
use yurt.Examples.Nodes.{consul_ports}
use yurt.Examples.Containers.{container}

abbrev file_answers : Answers
file_answers = record {
  mkdir_all = λ dir h. ok tt;
  parse_pem = λ text h. ok tt;
  write_file = λ name h. ok tt;
  create_file = λ name h. ok tt;
  start_process = λ h. ok tt;
}

-- An old container has the name.
abbrev docker_answers : DockerAnswers
docker_answers = record {
  files = file_answers;
  list_containers = λ name h. ok ("old" ∷ []);
  remove_container = λ id h. ok tt;
  start_container = λ opts h. ok container;
}

abbrev encoders : Encoders
encoders = record { consul_json = λ c. ok "{}"; nomad_json = λ c. ok "{}"; yaml = λ c. ok "" }

abbrev runner_config : Config
runner_config = record (bare_config consul_ports no_tls) {
  network_config = record { network = none; docker_net_name = "yurt" };
  node_name = "consul-srv-1";
}

abbrev runner : DockerRunner
runner = record {
  command = Command.consul (Consul.new_config true ("10.2.0.2:8301" ∷ []) none);
  config = runner_config;
  node_dir = "/tmp/consul-srv-1";
  image = "consul:1.11.1";
  ip = "10.2.0.2";
  binary = "";
  binary_base = "";
}

abbrev started : DockerHarness
started = record { container = container; ip = "10.2.0.2"; config = runner_config }

abbrev start_calls : List Files.Event
start_calls = (start docker_answers encoders runner []).1

abbrev written_files : Dict String
written_files = ("common.hcl", Consul.common_hcl) ∷ []

old_listed : docker_answers.list_containers runner.config.node_name [] ≡ ok ("old" ∷ [])
old_listed = refl

files_there : files encoders (with_config runner.command runner.config) ≡ ok written_files
unfolding Consul.files yurt.Commands.Files.add_tls_json Consul.tls_config insert
files_there = refl

started_well : start docker_answers encoders runner [] ≡ (ok started, start_calls)
unfolding start Consul.files insert yurt.Commands.Files.add_tls_json Consul.tls_config
    Files.write_configs has_suffix Container.container_ip lookup run_options
started_well = refl

docker_start_ok_example :
    (started.config ≡ runner.config)
    × (start_calls
        ≡ Files.start_container (run_options runner (with_config runner.command runner.config))
          ∷ (written (join runner.node_dir "config") written_files
              ++ (made_all (node_copies runner)
                  ++ (removed ("old" ∷ [])
                      ++ (Files.list_containers runner.config.node_name ∷ [])))))
docker_start_ok_example =
    docker_start_ok docker_answers encoders runner [] start_calls ("old" ∷ []) written_files started
      old_listed files_there started_well
