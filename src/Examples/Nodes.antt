-- ===== src/Examples/Nodes.antt =====
-- types.go and runenv/runenv.go: ports and nodes.
use yurt.Prelude.{
  ◌%◌, ◌≡◌, refl, ◌↔◌, none, some, List, [], ◌∷◌, length, Distinct, get_elem?, arith, decimal,
}
use yurt.Effects.{external}
use yurt.Types.{Node, Ports}
use yurt.Runenv.Counters.{
  Ip4, Request, ExecCounters, exec_counters, docker_counters, docker_alloc_all, docker_alloc,
}
use yurt.Runenv.Hosts.{docker_hosts_repeat}
use yurt.Runenv.Targets.Listing.{Allocation}
use yurt.Commands.Consul.{runner_ports, def_ports}
use yurt.Commands.Vault

abbrev pub consul_ports : Ports
consul_ports = runner_ports def_ports

abbrev pub vault_ports : Ports
vault_ports = Vault.runner_ports Vault.def_ports

consul_order : consul_ports.name_order ≡ "server" ∷ "serf-lan" ∷ "serf-wan" ∷ "http" ∷ "dns" ∷ []
unfolding runner_ports
consul_order = refl

consul_ports-Distinct : Distinct consul_ports.name_order
unfolding runner_ports
consul_ports-Distinct = (refl, (refl, (refl, (refl, (refl, tt)))))

http_fourth : get_elem? consul_ports.name_order 3 ≡ some "http"
unfolding runner_ports
http_fourth = refl

five_names : length consul_ports.name_order ≡ 5
unfolding runner_ports
five_names = refl

abbrev requests : List Request
requests = ("consul-srv", consul_ports) ∷ ("vault-srv", vault_ports) ∷ []

abbrev counters : ExecCounters
counters = exec_counters 18000

abbrev network : Ip4
network = record { a = 10; b = 3; c = 4; d = 0 }

abbrev docker_nodes : List Node
docker_nodes = (docker_alloc_all network docker_counters requests).0

two_nodes : length docker_nodes ≡ 2
unfolding docker_alloc_all
two_nodes = refl

abbrev first_node : Node
first_node = (docker_alloc network docker_counters "consul-srv" consul_ports).0

abbrev second_node : Node
second_node =
    (docker_alloc network (docker_alloc network docker_counters "consul-srv" consul_ports).1
      "vault-srv" vault_ports).0

first_node_there : get_elem? docker_nodes 0 ≡ some first_node
unfolding docker_alloc_all
first_node_there = refl

second_node_there : get_elem? docker_nodes 1 ≡ some second_node
unfolding docker_alloc_all
second_node_there = refl

docker_hosts_repeat_example : (first_node.host ≡ second_node.host) ↔ (0 % 256 ≡ 1 % 256)
docker_hosts_repeat_example =
    docker_hosts_repeat network requests 0 1 first_node second_node (omega arith) first_node_there
      second_node_there

second_host : second_node.host ≡ "10.3.4.3"
unfolding docker_alloc decimal
second_host = refl

-- The second write fails.
abbrev calls : List Allocation
calls =
    (first_node, consul_ports, none)
    ∷ (second_node, vault_ports, some (external "disk full"))
    ∷ (second_node, consul_ports, none)
    ∷ []
