-- ===== src/Clusters/Consul.antt =====
-- `NewConsulCluster`, `ClientAgent` and `NewConsulClusterAndClient`.
pub mod Allocating
pub mod Started
pub mod Leftovers
pub mod Numbering
use yurt.Prelude.{
  ℕ, zero, suc, String, ◌<>◌, Bool, true, false, List, [], ◌∷◌, ◌++◌, Option, none, some,
}
use yurt.Effects.{Result, ok, err, wrapped}
use yurt.Effects.Calls.{Exec, pure, lift, call, ◌>>=◌, ◌>>◌}
use yurt.Types.{Ports, Node, TlsConfigPem, address}
use yurt.Commands.Consul.{runner_ports, def_ports, new_config}
use yurt.Commands.Command.{Command}
use yurt.Clusters.{World, Event, Harness, note, cluster_tls, watch}
use yurt.Clusters

-- `tls_ca` is the CA of the last certificate.
pub record ConsulCluster : Type 0 where
  pub servers : List Harness
  pub join_addrs : List String
  pub peer_addrs : List String
  pub tls_ca : String

-- What the first loop builds.
pub record Allocated : Type 0 where
  pub nodes : List Node
  pub join_addrs : List String
  pub peer_addrs : List String

abbrev pub consul_ports : Ports
consul_ports = runner_ports def_ports

-- `e.AllocNode(name, consul.DefPorts().RunnerPorts())`
abbrev pub ask_node : World → String → Exec Event Node
ask_node w name = call (Clusters.alloc_node name consul_ports) (w.alloc_node name consul_ports)

-- One round of the loop that allocates nodes.
unfoldable pub alloc_one : World → String → Allocated → Exec Event Allocated
alloc_one w name a = do
  node ← ask_node w (name <> "-consul-srv")
  join_addr ← lift (address node "serf-lan")
  server_addr ← lift (address node "server")
  pure (record {
    nodes = a.nodes ++ (node ∷ []);
    join_addrs = a.join_addrs ++ (join_addr ∷ []);
    peer_addrs = a.peer_addrs ++ (server_addr ∷ []);
  })

-- The loop, for the rounds that are left.
unfoldable pub alloc_nodes : World → String → ℕ → Allocated → Exec Event Allocated
alloc_nodes w name zero a = pure a
alloc_nodes w name (suc count) a = alloc_one w name a >>= alloc_nodes w name count

abbrev pub ca_of : Option TlsConfigPem → String → String
ca_of none old = old
ca_of (some tls) old = tls.ca

abbrev pub server_command : List String → Option TlsConfigPem → Command
server_command join_addrs tls = Command.consul (new_config true join_addrs tls)

-- `e.Run(ctx, cmd, node)`
abbrev pub run_node : World → Command → Node → Exec Event Harness
run_node w command node = call (Clusters.run command node) (w.run command node)

-- One round of the loop that starts the servers.
unfoldable pub start_one : World → Bool → Node → ConsulCluster → Exec Event ConsulCluster
start_one w has_ca node c = do
  tls ← cluster_tls w has_ca Clusters.consul
  server ← run_node w (server_command c.join_addrs tls) node
  note (watch server)
  pure (record c { servers = c.servers ++ (server ∷ []); tls_ca = ca_of tls c.tls_ca })

unfoldable pub start_servers : World → Bool → List Node → ConsulCluster → Exec Event ConsulCluster
start_servers w has_ca [] c = pure c
start_servers w has_ca (node ∷ nodes) c = start_one w has_ca node c >>= start_servers w has_ca nodes

-- `LeadersHealthy`
abbrev pub check : World → ConsulCluster → Exec Event ConsulCluster
check w c h = elim (w.consul_healthy c.servers c.peer_addrs h) [
  | ok _ ↦ (ok c, Clusters.consul_healthy c.servers c.peer_addrs ∷ h)
  | err e ↦ (err e, Clusters.consul_healthy c.servers c.peer_addrs ∷ h)
]

abbrev pub no_nodes : Allocated
no_nodes = record { nodes = []; join_addrs = []; peer_addrs = [] }

abbrev pub no_servers : Allocated → ConsulCluster
no_servers a = record {
  servers = [];
  join_addrs = a.join_addrs;
  peer_addrs = a.peer_addrs;
  tls_ca = "";
}

-- `NewConsulCluster`
unfoldable pub new_consul_cluster : World → Bool → String → ℕ → Exec Event ConsulCluster
new_consul_cluster w has_ca name node_count = do
  a ← alloc_nodes w name node_count no_nodes
  c ← start_servers w has_ca a.nodes (no_servers a)
  check w c

-- `ClientAgent`
unfoldable pub client_agent : World → Bool → ConsulCluster → String → Exec Event Harness
client_agent w has_ca c name = do
  tls ← cluster_tls w has_ca Clusters.consul
  node ← ask_node w name
  run_node w (Command.consul (new_config false c.join_addrs tls)) node
