-- ===== src/Runenv/Launching.antt =====
-- `Run` of `ExecEnv` and of `DockerEnv`: where a command runs, and with which directories.
pub mod Addresses
use yurt.Prelude.{
  String, ◌<>◌, Bool, true, false, List, Option, none, some, str_eq, if◌then◌else◌, ◌&&◌,
}
use yurt.Effects.{Error, Result, ok, err, wrapped, unknown_config}
use yurt.Effects.Calls.{Exec, lift, pure, ◌>>=◌}
use yurt.Types.{Node}
use yurt.Runner.{Config, NetworkConfig, SockAddr, join}
use yurt.Commands.Command
use yurt.Commands.Command.{Command, Encoders}
use yurt.Runners.Files.{Event, Answers}
use yurt.Runners.Exec
use yurt.Runners.Exec.{ExecHarness}
use yurt.Runners.Docker
use yurt.Runners.Docker.{DockerHarness, DockerRunner, DockerAnswers, new_docker_runner}

-- An error of the start is wrapped.
abbrev pub wrap_start : {A : Type 0} → Exec Event A → Exec Event A
wrap_start m h = elim (m h).0 [
  | ok a ↦ (ok a, (m h).1)
  | err e ↦ (err (wrapped "error starting server" e), (m h).1)
]

-- Of an `ExecEnv`, what `Run` reads.
pub record ExecEnv : Type 0 where
  pub work_dir : String
  pub log_to_files : Bool

abbrev pub node_dir : String → Node → String → String
node_dir work_dir node part = join (join work_dir node.name) part

-- The configuration of the runner; its network is not set.
abbrev pub exec_config : ExecEnv → Command → Node → Config
exec_config env command node = record {
  config_dir = node_dir env.work_dir node "config";
  data_dir = node_dir env.work_dir node "data";
  log_dir = node_dir env.work_dir node "log";
  network_config = record { network = none; docker_net_name = "" };
  node_name = node.name;
  tls = (Command.config command).tls;
  ports = node.ports;
}

-- `now` is the time in the name of the log.
abbrev pub log_name : ExecEnv → Node → String → String
log_name env node now =
    if env.log_to_files then join (node_dir env.work_dir node "log") (now <> "-stdout.txt") else ""

-- `ExecEnv.Run`; `get` is the manager's `Get`.
unfoldable pub exec_run :
    Answers
    → Encoders
    → (String → Result String)
    → ExecEnv
    → String
    → Command
    → Node
    → Exec Event ExecHarness
exec_run o encoders get env now command node = do
  bin_path ← lift (get (Command.name command))
  wrap_start (
      Exec.start o encoders
        (record { command = command; config = exec_config env command node; bin_path = bin_path })
        (log_name env node now))

-- The image of a command and the directories in its containers.
pub record Image : Type 0 where
  pub image : String
  pub config_dir : String
  pub data_dir : String
  pub log_dir : String

-- The `switch` of `DockerEnv.Run`.
unfoldable pub image_of : String → Result Image
image_of name =
    if str_eq name "consul"
    then ok (record {
      image = "consul:1.11.1";
      config_dir = "/consul/config";
      data_dir = "/consul/data";
      log_dir = "/consul/logs";
    })
    else if str_eq name "nomad"
    then ok (record {
      image = "noenv/nomad:0.10.3";
      config_dir = "/nomad/config";
      data_dir = "/nomad/data";
      log_dir = "/nomad/logs";
    })
    else if str_eq name "vault"
    then ok (record {
      image = "vault:1.9.2";
      config_dir = "/vault/config";
      data_dir = "/vault/file";
      log_dir = "/vault/logs";
    })
    else err (unknown_config name)

-- Of a `DockerEnv`, what `Run` reads; `get_os_arch` is the manager's `GetOSArch`, which may be nil,
-- for linux and arm64.
pub record DockerEnv : Type 0 where
  pub work_dir : String
  pub network_config : NetworkConfig
  pub get_os_arch : Option (String → Result String)

-- `if d.BinMgr != nil && cmd.Name() == "vault"`
abbrev pub local_binary : DockerEnv → String → Result String
local_binary env name = elim env.get_os_arch [
  | none ↦ ok ""
  | some get ↦ (if str_eq name "vault" then get name else ok "")
]

abbrev pub docker_config : DockerEnv → Image → Command → Node → Config
docker_config env image command node = record {
  config_dir = image.config_dir;
  data_dir = image.data_dir;
  log_dir = image.log_dir;
  network_config = env.network_config;
  node_name = node.name;
  tls = (Command.config command).tls;
  ports = node.ports;
}

-- `DockerEnv.Run`; `base` gives the last element of a path.
unfoldable pub docker_run :
    DockerAnswers
    → Encoders
    → (String → String)
    → DockerEnv
    → Command
    → Node
    → Exec Event DockerHarness
docker_run o encoders base env command node = do
  image ← lift (image_of (Command.name command))
  binary ← lift (local_binary env (Command.name command))
  runner ← new_docker_runner o.files (record {
    command = command;
    config = docker_config env image command node;
    node_dir = join env.work_dir node.name;
    image = image.image;
    ip = node.host;
    binary = binary;
    binary_base = base binary;
  })
  wrap_start (Docker.start o encoders runner)
