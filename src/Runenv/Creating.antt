-- ===== src/Runenv/Creating.antt =====
-- runenv/runenv.go: `NewBaseEnv`, `NewExecEnv` and `NewDockerEnv`.
use yurt.Prelude.{ℕ, String, ◌<>◌, List, [], ◌∷◌, some, str_eq, decimal, if◌then◌else◌}
use yurt.Effects.{Result, ok, err, panic}
use yurt.Effects.Calls.{Exec, pure, lift, call, ◌>>=◌, ◌>>◌}
use yurt.Runner.{NetworkConfig, SockAddr}
use yurt.Docker.Network.{Network, Api, setup_network}
use yurt.Docker.Network
use yurt.Runenv.Counters.{ExecCounters, DockerCounters, exec_counters, docker_counters}

pub data Event : Type 0 where
  temp_dir : Event
  abs : String → Event
  -- the goroutine that removes the directory when the context ends
  remove_when_done : String → Event
  docker_client : Event
  -- `rand.Int31n`
  random : ℕ → Event
  -- the calls of `SetupNetwork`, the newest first
  network : List Network.Event → Event

-- The answers of the operating system, of Docker and of the random numbers. `sock_addr` is
-- `NewSockAddr`.
pub record Answers : Type 0 where
  pub temp_dir : List Event → Result String
  pub abs : String → List Event → Result String
  pub docker_client : List Event → Result (Unit {0})
  pub random : ℕ → List Event → ℕ
  pub api : List Event → Api
  pub sock_addr : String → Result SockAddr

-- The working directory that was asked for, or a new one.
abbrev pub dir_or_temp : Answers → String → Exec Event String
dir_or_temp o work_dir = if str_eq work_dir "" then call temp_dir o.temp_dir else pure work_dir

-- `NewBaseEnv`: the absolute working directory of the environment.
unfoldable pub new_base_env : Answers → String → Exec Event String
new_base_env o work_dir = do
  dir ← dir_or_temp o work_dir
  abs_dir ← call (abs dir) (o.abs dir)
  call (remove_when_done abs_dir) (λ h. ok tt)
  pure abs_dir

-- Of an `ExecEnv`, the working directory and the counters.
pub record ExecEnv : Type 0 where
  pub work_dir : String
  pub counters : ExecCounters

-- `NewExecEnv`
unfoldable pub new_exec_env : Answers → String → ℕ → Exec Event ExecEnv
new_exec_env o work_dir first_port = new_base_env o work_dir >>= λ dir.
    pure (record { work_dir = dir; counters = exec_counters first_port })

pub record DockerEnv : Type 0 where
  pub work_dir : String
  pub net_conf : NetworkConfig
  pub counters : DockerCounters

-- `rand.Int31n(255)`
abbrev pub random_byte : Answers → Exec Event ℕ
random_byte o = call (random 255) (λ h. ok (o.random 255 h))

abbrev pub subnet_of : ℕ → ℕ → String
subnet_of a b = ("10." <> decimal a) <> (("." <> decimal b) <> ".0/24")

-- The network that was asked for, or a random one.
unfoldable pub cidr_or_random : Answers → String → Exec Event String
cidr_or_random o cidr =
    if str_eq cidr ""
    then (random_byte o >>= λ a. random_byte o >>= λ b. pure (subnet_of a b))
    else pure cidr

-- `docker.SetupNetwork`
abbrev pub set_up : Answers → String → String → Exec Event Network
set_up o name cidr h =
    let (n, calls) = setup_network (o.api h) name cidr [] in (n, network calls ∷ h)

-- `netRes.IPAM.Config[0].Subnet`
abbrev pub first_subnet : List String → Result String
first_subnet [] = err (panic "index out of range")
first_subnet (s ∷ subnets) = ok s

-- `NewDockerEnv`
unfoldable pub new_docker_env : Answers → String → String → String → Exec Event DockerEnv
new_docker_env o name work_dir cidr = do
  dir ← new_base_env o work_dir
  call docker_client o.docker_client
  chosen ← cidr_or_random o cidr
  n ← set_up o name chosen
  subnet ← lift (first_subnet n.subnets)
  sa ← lift (o.sock_addr subnet)
  pure (record {
    work_dir = dir;
    net_conf = record { docker_net_name = name; network = some sa };
    counters = docker_counters;
  })
