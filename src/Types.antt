-- ===== src/Types.antt =====
-- types.go: nodes, ports and the order in which port numbers are assigned.
pub mod Sequential
use yurt.Prelude.{ℕ, String, ◌<>◌, Bool, Option, none, some, List, [], ◌∷◌, ◌++◌}
use yurt.Prelude.{Dict, insert, lookup_or, add_int, show_int, ◌==◌, if◌then◌else◌}
use yurt.Effects.{Result, ok, err, no_address}

-- pki/pki.go: the three texts of a TLS configuration
pub record TlsConfigPem : Type 0 where
  pub ca : String
  pub cert : String
  pub private_key : String

abbrev pub no_tls : TlsConfigPem
no_tls = record { ca = ""; cert = ""; private_key = "" }

pub data PortNetworkType : Type 0 where
  tcp_only udp_only tcp_and_udp : PortNetworkType

-- `number` is an `int`.
pub record Port : Type 0 where
  pub number : ℕ
  pub type : PortNetworkType

-- what `ByName[name]` gives for a name that is missing
abbrev pub no_port : Port
no_port = record { number = 0; type = tcp_only }

pub record Ports : Type 0 where
  pub kind : String
  pub by_name : Dict Port
  pub name_order : List String

pub record Node : Type 0 where
  pub name : String
  pub ports : Ports
  pub host : String
  pub tls : Option TlsConfigPem

abbrev pub port_of : Ports → String → Port
port_of p name = lookup_or no_port name p.by_name

-- `Node.Address`
unfoldable pub address : Node → String → Result String
address n name =
    let port = port_of n.ports name in
    if port.number == 0 then err (no_address name) else ok (n.host <> ":" <> show_int port.number)

-- `Port.AsList`
unfoldable pub as_list : Port → List String
as_list p = elim p.type [
  | tcp_only ↦ (show_int p.number <> "/tcp") ∷ []
  | udp_only ↦ (show_int p.number <> "/udp") ∷ []
  | tcp_and_udp ↦ (show_int p.number <> "/tcp") ∷ (show_int p.number <> "/udp") ∷ []
]

-- `p.ByName[name] = Port{Number: number, Type: p.ByName[name].Type}`
abbrev pub renumber : String → ℕ → Dict Port → Dict Port
renumber name number m =
    insert name (record { number = number; type = (lookup_or no_port name m).type }) m

-- The loop of `Ports.Sequential` over the names that are left. The map is shared with the caller's
-- `Ports`, which therefore ends with the same numbers as the result.
assign : List String → ℕ → Dict Port → Dict Port
assign [] first_port m = m
assign (name ∷ names) first_port m =
    assign names (add_int first_port 1) (renumber name first_port m)

unfoldable pub sequential : Ports → ℕ → Ports
unfolding assign
sequential p first_port = record p { by_name = assign p.name_order first_port p.by_name }

-- The loop of `Ports.AsList`.
list_ports : Dict Port → List String → List String
list_ports m [] = []
list_ports m (name ∷ names) = as_list (lookup_or no_port name m) ++ list_ports m names

unfoldable pub ports_as_list : Ports → List String
unfolding list_ports
ports_as_list p = list_ports p.by_name p.name_order
