-- ===== src/Runners/Exec/Endpoints.antt =====
-- runner/exec/exec.go, `Endpoint`: the endpoint, the node and the arguments of a process.
use yurt.Prelude.{String, ◌≡◌, show_int, arith, ap}
use yurt.Effects.{ok, err, no_address}
use yurt.Types.{Node, Ports, address, port_of}
use text.Mathlib.TextLemmas.{append_assoc}
use yurt.Runners.Exec.{ExecHarness, endpoint}

-- The endpoint of a service whose harness has the ports of its node has the node's address, for a
-- node on the local host; it is missing exactly where the node has no address for the service.
pub endpoint-address :
    (h : ExecHarness) (n : Node) (name : String)
    → h.config.ports ≡ n.ports
    → n.host ≡ "127.0.0.1"
    → address n name ≡ (elim (endpoint h name) [ err e ↦ err (no_address name) | ok a ↦ ok a.host ])
unfolding endpoint address
endpoint-address h n name p q =
    let e : port_of h.config.ports name ≡ port_of n.ports name =
      ap (λ (x : Ports). port_of x name) p in
    rw q (ground (arith, e, append_assoc "127.0.0.1" ":" (show_int (port_of n.ports name).number)))
