-- ===== src/Clusters/Nomad.antt =====
-- `NewNomadCluster`, its `ClientAgent` and its `Stop`.
pub mod Stopping
pub mod Failures
use yurt.Prelude.{
  ℕ, zero, suc, String, ◌<>◌, Bool, true, false, List, [], ◌∷◌, ◌++◌, Option, none, some, show_int,
}
use yurt.Effects.{Result, ok, err}
use yurt.Effects.Calls.{Exec, pure, lift, call, ◌>>=◌, ◌>>◌}
use yurt.Types.{Ports, Node, TlsConfigPem, port_of}
use yurt.Commands.Nomad.{runner_ports, def_ports, new_config}
use yurt.Commands.Command.{Command}
use yurt.Clusters.{World, Event, Harness, note, cluster_tls, watch, stop}
use yurt.Clusters
use yurt.Clusters.Consul.{ConsulCluster, client_agent, run_node}

pub record NomadCluster : Type 0 where
  pub consul_agents : List Harness
  pub servers : List Harness
  pub peer_addrs : List String

-- What the first loop builds.
pub record Allocated : Type 0 where
  pub nodes : List Node
  pub peer_addrs : List String

abbrev pub nomad_ports : Ports
nomad_ports = runner_ports def_ports

abbrev pub ask_node : World → String → Exec Event Node
ask_node w name = call (Clusters.alloc_node name nomad_ports) (w.alloc_node name nomad_ports)

abbrev pub peer_addr : Node → String
peer_addr node = node.host <> (":" <> show_int (port_of node.ports "rpc").number)

-- The loop that allocates nodes, for the rounds that are left.
unfoldable pub alloc_nodes : World → String → ℕ → Allocated → Exec Event Allocated
alloc_nodes w name zero a = pure a
alloc_nodes w name (suc count) a = ask_node w (name <> "-nomad-srv") >>= λ node.
    alloc_nodes w name count (record {
      nodes = a.nodes ++ (node ∷ []);
      peer_addrs = a.peer_addrs ++ (peer_addr node ∷ []);
    })

-- `for _, s := range …{ _ = s.Stop() }`
unfoldable pub stop_each : List Harness → List Event → List Event
stop_each [] h = h
stop_each (s ∷ servers) h = stop_each servers (stop s ∷ h)

-- `Stop`
unfoldable pub stop_all : NomadCluster → List Event → List Event
stop_all c h = stop_each c.consul_agents (stop_each c.servers h)

-- `if err != nil { cluster.Stop(); return nil, err }`
abbrev pub or_stop : {A : Type 0} → NomadCluster → Exec Event A → Exec Event A
or_stop c m h = elim (m h).0 [ ok a ↦ (ok a, (m h).1) | err e ↦ (err e, stop_all c (m h).1) ]

abbrev pub with_agent : NomadCluster → Harness → NomadCluster
with_agent c agent = record c { consul_agents = c.consul_agents ++ (agent ∷ []) }

abbrev pub ask_endpoint : World → Harness → Exec Event String
ask_endpoint w agent = call (Clusters.endpoint agent) (w.endpoint agent)

abbrev pub server_command : ℕ → String → Option TlsConfigPem → Command
server_command node_count consul_addr tls = Command.nomad (new_config node_count consul_addr tls)

-- The round after the start of the Consul agent.
unfoldable pub start_with_agent :
    World → Bool → ℕ → Node → NomadCluster → Harness → Exec Event NomadCluster
start_with_agent w has_ca node_count node c agent = do
  note (watch agent)
  consul_addr ← or_stop (with_agent c agent) (ask_endpoint w agent)
  tls ← cluster_tls w has_ca Clusters.nomad
  server ←
      or_stop (with_agent c agent) (run_node w (server_command node_count consul_addr tls) node)
  note (watch server)
  pure (record (with_agent c agent) { servers = c.servers ++ (server ∷ []) })

-- One round of the loop that starts the servers: a Consul agent, then the server that uses it.
unfoldable pub start_one :
    World → Bool → String → ℕ → ConsulCluster → Node → NomadCluster → Exec Event NomadCluster
start_one w has_ca name node_count consul_cluster node c =
    client_agent w has_ca consul_cluster (name <> "-consul-cli")
    >>= start_with_agent w has_ca node_count node c

unfoldable pub start_servers :
    World → Bool → String → ℕ → ConsulCluster → List Node → NomadCluster → Exec Event NomadCluster
start_servers w has_ca name node_count consul_cluster [] c = pure c
start_servers w has_ca name node_count consul_cluster (node ∷ nodes) c =
    start_one w has_ca name node_count consul_cluster node c
    >>= start_servers w has_ca name node_count consul_cluster nodes

abbrev pub ask_healthy : World → NomadCluster → Exec Event (Unit {0})
ask_healthy w c =
    call (Clusters.nomad_healthy c.servers c.peer_addrs) (w.nomad_healthy c.servers c.peer_addrs)

abbrev pub no_servers : Allocated → NomadCluster
no_servers a = record { consul_agents = []; servers = []; peer_addrs = a.peer_addrs }

abbrev pub no_nodes : Allocated
no_nodes = record { nodes = []; peer_addrs = [] }

-- `LeadersHealthy`, and what follows.
abbrev pub check : World → NomadCluster → Exec Event NomadCluster
check w c = or_stop c (ask_healthy w c) >> pure c

-- `NewNomadCluster`
unfoldable pub new_nomad_cluster :
    World → Bool → String → ℕ → ConsulCluster → Exec Event NomadCluster
new_nomad_cluster w has_ca name node_count consul_cluster = do
  a ← alloc_nodes w name node_count no_nodes
  c ← start_servers w has_ca name node_count consul_cluster a.nodes (no_servers a)
  check w c

-- `ClientAgent`
unfoldable pub nomad_client_agent : World → Bool → String → String → Exec Event Harness
nomad_client_agent w has_ca name consul_addr = do
  tls ← cluster_tls w has_ca Clusters.nomad
  node ← ask_node w name
  run_node w (server_command 0 consul_addr tls) node
