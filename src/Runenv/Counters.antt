-- ===== src/Runenv/Counters.antt =====
-- The atomic counters of `ExecEnv` and `DockerEnv`, and their `AllocNode`.
use yurt.Prelude.{ℕ, ◌%◌, String, ◌<>◌, none, List, [], ◌∷◌}
use yurt.Prelude.{add_int32, sub_int, int32_of_int, int_of_int32, show_int, decimal, length}
use yurt.Types.{Ports, Node, sequential}

-- The `int32` counters of an `ExecEnv`.
pub record ExecCounters : Type 0 where
  pub nodes : ℕ
  pub first_port : ℕ

-- The counters that `NewExecEnv` sets, from its argument firstPort.
abbrev pub exec_counters : ℕ → ExecCounters
exec_counters first_port = record { nodes = 0; first_port = int32_of_int first_port }

abbrev pub numbered : String → ℕ → String
numbered base_name count = base_name <> ("-" <> show_int (int_of_int32 count))

-- `ExecEnv.AllocNode`. It never returns an error.
unfoldable pub exec_alloc : ExecCounters → String → Ports → Node × ExecCounters
exec_alloc c base_name ports =
    let count = add_int32 c.nodes 1 in
    let names = length ports.name_order in
    let last_port = add_int32 c.first_port (int32_of_int names) in
    (
      record {
        name = numbered base_name count;
        ports = sequential ports (sub_int (int_of_int32 last_port) names);
        host = "127.0.0.1";
        tls = none;
      },
      record { nodes = count; first_port = last_port },
    )

-- The four bytes of an IPv4 address.
pub record Ip4 : Type 0 where
  pub a : ℕ
  pub b : ℕ
  pub c : ℕ
  pub d : ℕ

-- `net.IP.String` on four bytes
abbrev pub ip_string : Ip4 → String
ip_string i =
    (decimal i.a <> ("." <> (decimal i.b <> ("." <> decimal i.c)))) <> ("." <> decimal i.d)

-- The `int32` counters of a `DockerEnv`.
pub record DockerCounters : Type 0 where
  pub nodes : ℕ
  pub cur_ip_oct : ℕ

-- The counters that `NewDockerEnv` sets.
abbrev pub docker_counters : DockerCounters
docker_counters = record { nodes = 0; cur_ip_oct = 1 }

-- `DockerEnv.AllocNode`; `network` is the address of `NetConf.Network`, as `NetIP().To4()` gives it.
unfoldable pub docker_alloc : Ip4 → DockerCounters → String → Ports → Node × DockerCounters
docker_alloc network c base_name ports =
    let count = add_int32 c.nodes 1 in
    let oct = add_int32 c.cur_ip_oct 1 in
    (
      record {
        name = numbered base_name count;
        ports = sequential ports 17000;
        host = ip_string (record network { d = oct % 256 });
        tls = none;
      },
      record { nodes = count; cur_ip_oct = oct },
    )

-- A request for a node: its base name and its ports.
abbrev pub Request : Type 0
Request = String × Ports

-- A run of requests, each on the counters that the one before it left.
unfoldable pub exec_alloc_all : ExecCounters → List Request → List Node × ExecCounters
exec_alloc_all c [] = ([], c)
exec_alloc_all c ((base_name, ports) ∷ requests) =
    let (node, c') = exec_alloc c base_name ports in
    let (nodes, c'') = exec_alloc_all c' requests in (node ∷ nodes, c'')

unfoldable pub docker_alloc_all : Ip4 → DockerCounters → List Request → List Node × DockerCounters
docker_alloc_all network c [] = ([], c)
docker_alloc_all network c ((base_name, ports) ∷ requests) =
    let (node, c') = docker_alloc network c base_name ports in
    let (nodes, c'') = docker_alloc_all network c' requests in (node ∷ nodes, c'')
