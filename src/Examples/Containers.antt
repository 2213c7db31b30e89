-- ===== src/Examples/Containers.antt =====
-- docker/docker.go and runner/docker/docker.go: networks and containers.
use yurt.Prelude.{◌≡◌, refl, ◌⊎◌, none, some, List, [], ◌∷◌, true, false, lookup_or, show_int}
use yurt.Effects.{ok, err, external}
use yurt.Types.{Node, address, no_tls}
use yurt.Runner.{ApiConfig, bare_config}
use yurt.Docker.Network
use yurt.Docker.Network.{Network, setup_network}
use yurt.Docker.Network.Setup.{setup_network_ok, first_usable, created}
use yurt.Docker.Container
use yurt.Docker.Container.{RunOptions, ContainerJson, net_mode}
use yurt.Runners.Docker.{DockerHarness, endpoint}
use yurt.Commands.Consul
use yurt.Examples.Nodes.{consul_ports}

abbrev other : Network
other = record { id = "1"; name = "other"; subnets = "10.1.0.0/24" ∷ [] }

-- A network of the right name without a subnet.
abbrev broken : Network
broken = record { id = "2"; name = "yurt"; subnets = [] }

abbrev fresh : Network
fresh = record { id = "3"; name = "yurt"; subnets = "10.2.0.0/24" ∷ [] }

abbrev networks : Network.Api
networks = record {
  list = λ h. ok (other ∷ broken ∷ []);
  remove = λ id h. ok tt;
  create = λ name cidr h. ok "3";
  inspect = λ id h. ok fresh;
}

abbrev network_calls : List Network.Event
network_calls =
    Network.inspect "3"
    ∷ Network.create "yurt" "10.2.0.0/24"
    ∷ Network.remove "2"
    ∷ Network.list
    ∷ []

network_made : setup_network networks "yurt" "10.2.0.0/24" [] ≡ (ok fresh, network_calls)
unfolding setup_network
network_made = refl

networks_listed : networks.list [] ≡ ok (other ∷ broken ∷ [])
networks_listed = refl

setup_network_ok_example :
    ((first_usable "yurt" (other ∷ broken ∷ []) ≡ some fresh) × (created network_calls ≡ false))
    ⊎ ((first_usable "yurt" (other ∷ broken ∷ []) ≡ none) × (created network_calls ≡ true))
setup_network_ok_example =
    setup_network_ok networks "yurt" "10.2.0.0/24" (other ∷ broken ∷ []) fresh network_calls
      networks_listed network_made

abbrev options : RunOptions
options = record {
  image = "consul:1.11.1";
  cmd = "agent" ∷ [];
  env = [];
  entrypoint = [];
  exposed_ports = "8500/tcp" ∷ [];
  container_name = "consul-srv-1";
  net_name = "yurt";
  ip = "10.2.0.2";
  copy_from_to = ("/tmp/config", "/consul/config") ∷ [];
}

abbrev pub container : ContainerJson
container = record {
  id = "c";
  networks = ("yurt", "10.2.0.2") ∷ [];
  ports = ("8500/tcp", "32768" ∷ []) ∷ [];
}

-- The container cannot be started.
abbrev failing : Container.Api
failing = record {
  create = λ h. ok "c";
  copy_to = λ id from to h. ok tt;
  start = λ id h. err (external "port is already allocated");
  inspect = λ id h. ok container;
  remove = λ id h. ok tt;
  stop = λ id h. ok tt;
}

abbrev run_calls : List Container.Event
run_calls =
    Container.start "c"
    ∷ Container.copy_to "c" "/tmp/config" "/consul/config"
    ∷ Container.create options (net_mode "yurt" "10.2.0.2")
    ∷ Container.pull "consul:1.11.1"
    ∷ []

abbrev harness : DockerHarness
harness = record {
  container = container;
  ip = "10.2.0.2";
  config = bare_config consul_ports no_tls;
}

abbrev node : Node
node = record { name = "consul-srv-1"; ports = consul_ports; host = "10.2.0.2"; tls = none }

same_ports : harness.config.ports ≡ node.ports
same_ports = refl

same_host : harness.ip ≡ node.host
same_host = refl

abbrev mapped : ApiConfig
mapped = record { scheme = "http"; host = "127.0.0.1:32768"; ca_file = "" }

abbrev inside : ApiConfig
inside = record { scheme = "http"; host = "10.2.0.2:8500"; ca_file = "" }

from_outside : endpoint harness "http" true ≡ ok mapped
unfolding endpoint lookup_or yurt.Commands.Consul.runner_ports yurt.Commands.Consul.def_ports
    yurt.Types.as_list show_int
from_outside = refl

from_inside : endpoint harness "http" false ≡ ok inside
unfolding endpoint lookup_or yurt.Commands.Consul.runner_ports yurt.Commands.Consul.def_ports
    show_int
from_inside = refl
