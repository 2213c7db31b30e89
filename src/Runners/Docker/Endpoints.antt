-- ===== src/Runners/Docker/Endpoints.antt =====
-- The endpoints of a container, for callers inside and outside its network.
use yurt.Prelude.{String, ◌≡◌, ap, true, false, arith}
use yurt.Effects.{ok, err, no_address}
use yurt.Types.{Node, Ports, address, port_of}
use yurt.Runner.{ApiConfig}
use yurt.Runners.Docker.{DockerHarness, endpoint}

-- Inside the network, the endpoint of a service has the node's address, if the harness has the
-- node's ports and the container the node's host as its IP; it is missing exactly where the node
-- has no address for the service.
docker_endpoint-address :
    (d : DockerHarness) (n : Node) (name : String)
    → d.config.ports ≡ n.ports
    → d.ip ≡ n.host
    → address n name
      ≡ (elim (endpoint d name false) [ err e ↦ err (no_address name) | ok a ↦ ok a.host ])
unfolding endpoint address
docker_endpoint-address d n name p q =
    let e : port_of d.config.ports name ≡ port_of n.ports name =
      ap (λ (x : Ports). port_of x name) p in
    ground (arith, e, q)

-- Both kinds of endpoint use the same scheme and CA file; the one for callers outside is on the
-- local host.
docker_endpoint-local :
    (d : DockerHarness) (name : String) (a b : ApiConfig)
    → endpoint d name true ≡ ok a
    → endpoint d name false ≡ ok b
    → (a.scheme ≡ b.scheme) × (a.ca_file ≡ b.ca_file)
unfolding endpoint
docker_endpoint-local d name a b p q = ground arith
