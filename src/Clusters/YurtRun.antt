-- ===== src/Clusters/YurtRun.antt =====
-- cluster/dockeryurt.go: containers that run yurt-run, as a cluster.
pub mod Cleaning
use yurt.Prelude.{
  ℕ, suc, ◌+◌, String, ◌<>◌, List, [], ◌∷◌, ◌++◌, map, Dict, insert, show_int, join_texts,
}
use yurt.Effects.{Error, Result, ok, err}
use yurt.Effects.Calls.{Exec, call}
use yurt.Effects.Methods.{Method, pure, lift, calling, reading, change, ◌>>=◌, ◌>>◌}
use yurt.Runner.{join}
use yurt.Docker.Container.{RunOptions, ContainerJson}

pub record YurtRunCluster : Type 0 where
  pub docker_net_name : String
  pub consul_server_ips : List String
  pub base_image : String
  pub work_dir : String
  pub containers : List ContainerJson

pub data Event : Type 0 where
  make_dir : String → Event
  get_os_arch : String → Event
  start_container : RunOptions → Event
  cleanup_container : String → Event

-- The answers of the file system, of the binaries and of docker/docker.go: `docker.Start` and
-- `docker.CleanupContainer`.
pub record World : Type 0 where
  pub make_dir : String → List Event → Result (Unit {0})
  pub get_os_arch : String → List Event → Result String
  pub start : RunOptions → List Event → Result ContainerJson
  pub cleanup : String → List Event → Result (Unit {0})

abbrev pub node_name : ℕ → String
node_name node = "yurt" <> show_int (node + 1)

-- `for _, name := range []string{"yurt-run", "consul", "nomad"} { … }`
unfoldable pub add_binaries : World → List String → Dict String → Exec Event (Dict String)
add_binaries w [] copies h = (ok copies, h)
add_binaries w (name ∷ names) copies h = elim (w.get_os_arch name h) [
  | err e ↦ (err e, get_os_arch name ∷ h)
  | ok bin ↦ add_binaries w names (insert bin ("/bin/" <> name) copies) (get_os_arch name ∷ h)
]

abbrev pub exposed_ports : List String
exposed_ports =
    "4646/tcp" ∷ "4647/tcp" ∷ "4648/tcp" ∷ "8300/tcp" ∷ "8301/tcp" ∷ "8301/udp" ∷ "8302/tcp"
    ∷ "8302/udp" ∷ "8500/tcp" ∷ "8501/tcp" ∷ "8600/tcp" ∷ "8600/udp" ∷ []

unfoldable pub node_options : YurtRunCluster → ℕ → String → Dict String → RunOptions
node_options c node ip copies = record {
  image = c.base_image;
  entrypoint = "/bin/yurt-run" ∷ [];
  cmd =
      ("-consul-server-ips=" <> join_texts "," c.consul_server_ips)
      ∷ "-consul-bin=/bin/consul"
      ∷ "-nomad-bin=/bin/nomad"
      ∷ [];
  env = [];
  exposed_ports = exposed_ports;
  container_name = node_name node;
  net_name = c.docker_net_name;
  ip = ip;
  copy_from_to = copies;
}

abbrev pub with_container : ContainerJson → YurtRunCluster → YurtRunCluster
with_container k c = record c { containers = c.containers ++ (k ∷ []) }

abbrev pub Cluster : Type 0 → Type 0
Cluster A = Method YurtRunCluster Event A

-- `docker.Start` and what follows it
unfoldable pub launch : World → ℕ → String → Dict String → Cluster (Unit {0})
launch w node ip copies = do
  c ← reading (λ c. c)
  k ← calling (
      call (start_container (node_options c node ip copies))
        (w.start (node_options c node ip copies)))
  change (with_container k)

-- `startNode`
unfoldable pub start_node : World → ℕ → String → Cluster (Unit {0})
start_node w node ip = do
  c ← reading (λ c. c)
  calling (
      call (make_dir (join c.work_dir (node_name node)))
        (w.make_dir (join c.work_dir (node_name node))))
  copies ← calling (
      add_binaries w ("yurt-run" ∷ "consul" ∷ "nomad" ∷ [])
        ((join c.work_dir (node_name node), "/var/yurt") ∷ []))
  launch w node ip copies

-- The loop of `Start`, from node i.
unfoldable pub start_nodes : World → ℕ → List String → Cluster (Unit {0})
start_nodes w i [] = pure tt
start_nodes w i (ip ∷ ips) = start_node w i ip >> start_nodes w (i + 1) ips

-- `Start`
unfoldable pub start : World → Cluster (Unit {0})
start w = reading (λ c. c.consul_server_ips) >>= start_nodes w 0

-- The loop of `Stop`, with the errors so far.
unfoldable pub stop_rounds :
    World → List ContainerJson → List Error → List Event → List Error × List Event
stop_rounds w [] errs h = (errs, h)
stop_rounds w (k ∷ containers) errs h = elim (w.cleanup k.id h) [
  | ok _ ↦ stop_rounds w containers errs (cleanup_container k.id ∷ h)
  | err e ↦ stop_rounds w containers (errs ++ (e ∷ [])) (cleanup_container k.id ∷ h)
]

-- `Stop`
unfoldable pub stop : World → YurtRunCluster → List Event → List Error × List Event
stop w c = stop_rounds w c.containers []
