-- ===== src/Runners/Docker.antt =====
-- runner/docker/docker.go: a command as a container.
pub mod Endpoints
pub mod Starting
use yurt.Prelude.{
  ℕ, String, ◌<>◌, Bool, true, false, List, [], ◌∷◌, Option, none, some, Dict, insert, lookup_or,
  show_int, str_eq, ◌==◌, if◌then◌else◌,
}
use yurt.Effects.{Error, Result, ok, err, message, no_port_defined}
use yurt.Effects.Calls.{Exec, pure, raise, lift, call, ◌>>=◌, ◌>>◌}
use yurt.Types.{port_of, as_list, ports_as_list}
use yurt.Runner.{Config, ApiConfig, join}
use yurt.Docker.Container.{RunOptions, ContainerJson, container_ip}
use yurt.Commands.Command.{Command, Encoders, with_config, config, files, args, env}
use yurt.Runners.Files.{
  Event, Answers, mkdir_all, parse_pem, list_containers, remove_container, start_container, cancel,
  nothing, write_configs,
}

-- `binary` is a clean path, or empty; `binary_base` is its last element.
pub record DockerRunner : Type 0 where
  pub command : Command
  pub config : Config
  pub node_dir : String
  pub image : String
  pub ip : String
  pub binary : String
  pub binary_base : String

pub record DockerHarness : Type 0 where
  pub container : ContainerJson
  pub ip : String
  pub config : Config

-- The answers of the file system and of Docker.
pub record DockerAnswers : Type 0 where
  pub files : Answers
  pub list_containers : String → List Event → Result (List String)
  pub remove_container : String → List Event → Result (Unit {0})
  pub start_container : RunOptions → List Event → Result ContainerJson

-- `NewDockerRunner`: a certificate must be a PEM bundle.
unfoldable pub new_docker_runner : Answers → DockerRunner → Exec Event DockerRunner
new_docker_runner o d = do
  (if str_eq d.config.tls.cert ""
      then nothing
      else call (parse_pem d.config.tls.cert) (o.parse_pem d.config.tls.cert))
  pure d

-- `for _, cont := range matches`
pub remove_all : DockerAnswers → List String → Exec Event (Unit {0})
remove_all o [] = nothing
remove_all o (id ∷ ids) = call (remove_container id) (o.remove_container id) >> remove_all o ids

-- `for from := range copyFromTo`
pub make_all : Answers → Dict String → Exec Event (Unit {0})
make_all o [] = nothing
make_all o ((from, to) ∷ copies) = call (mkdir_all from) (o.mkdir_all from) >> make_all o copies

-- What is copied into the container, without the binary.
abbrev pub node_copies : DockerRunner → Dict String
node_copies d = insert (join d.node_dir "log") d.config.log_dir (
    insert (join d.node_dir "data") d.config.data_dir
      (insert (join d.node_dir "config") d.config.config_dir []))

abbrev pub copies : DockerRunner → Dict String
copies d =
    if str_eq d.binary ""
    then node_copies d
    else insert d.binary (join "/bin" d.binary_base) (node_copies d)

-- `if len(args) > 1 && args[1] == "-config=/vault/config"`: the second argument is dropped.
unfoldable pub without_vault_config : List String → List String
without_vault_config (a ∷ b ∷ rest) =
    if str_eq b "-config=/vault/config" then a ∷ rest else a ∷ b ∷ rest
without_vault_config l = l

unfoldable pub run_options : DockerRunner → Command → RunOptions
run_options d command = record {
  image = d.image;
  cmd = without_vault_config (args command);
  env = env command;
  entrypoint = "/bin/sh" ∷ "-x" ∷ "/usr/local/bin/docker-entrypoint.sh" ∷ [];
  exposed_ports = ports_as_list (config command).ports;
  container_name = d.config.node_name;
  net_name = (config command).network_config.docker_net_name;
  ip = d.ip;
  copy_from_to = copies d;
}

-- An error here ends the context of the container.
abbrev or_cancel : {A : Type 0} → Result A → Exec Event A
or_cancel (ok a) h = (ok a, h)
or_cancel (err e) h = (err e, cancel ∷ h)

-- `docker.Start` and `docker.ContainerIP`
pub launch : DockerAnswers → DockerRunner → Command → Exec Event DockerHarness
launch o d command = do
  let opts = run_options d command
  started ← (λ h. (ok (o.start_container opts h), start_container opts ∷ h))
  c ← or_cancel started
  ip ← or_cancel (container_ip c opts.net_name)
  pure (record { container = c; ip = ip; config = d.config })

-- `Start`
unfoldable pub start : DockerAnswers → Encoders → DockerRunner → Exec Event DockerHarness
unfolding remove_all make_all launch
start o encoders d = do
  matches ← call (list_containers d.config.node_name) (o.list_containers d.config.node_name)
  remove_all o matches
  make_all o.files (node_copies d)
  let command = with_config d.command d.config
  contents ← lift (files encoders command)
  write_configs o.files (join d.node_dir "config") contents
  launch o d command

-- The first text of `port.AsList()`, which is never empty.
abbrev first_listed : List String → String
first_listed [] = ""
first_listed (p ∷ ps) = p

-- The host of an endpoint for a caller outside the containers' network.
abbrev mapped_host : ContainerJson → String → Result String
mapped_host c port = elim (lookup_or [] port c.ports) [
  | [] ↦ err (message "no binding for API port")
  | p ∷ ps ↦ ok ("127.0.0.1:" <> p)
]

-- `Endpoint`
unfoldable pub endpoint : DockerHarness → String → Bool → Result ApiConfig
endpoint d name local =
    let port = port_of d.config.ports name in
    let scheme =
      if str_eq d.config.tls.cert "" then name else if str_eq name "http" then "https" else name in
    let ca = if str_eq scheme "https" then join d.config.config_dir "ca.pem" else "" in
    if port.number == 0 then err (no_port_defined name) else (elim local [
      | true ↦ elim (mapped_host d.container (first_listed (as_list port))) [
        | err e ↦ err e
        | ok host ↦ ok (record { scheme = scheme; host = host; ca_file = ca })
      ]
      | false ↦
          ok
            (record { scheme = scheme; host = d.ip <> (":" <> show_int port.number); ca_file = ca })
    ])
