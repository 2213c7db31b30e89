-- ===== src/Runner.antt =====
-- runner/runner.go: the configuration that all runners share, and the health of a cluster whose
-- members name a leader.
pub mod Health
pub mod Polling
use yurt.Prelude.{
  String, ◌<>◌, Option, str_eq, if◌then◌else◌, none, List, some, ℕ, Bool, [], ◌∷◌, ltb, ◌&&◌,
  int_half,
}
use yurt.Types.{Ports, TlsConfigPem}

-- A `sockaddr.SockAddr`, by what its methods `String` and `ToIPv4Addr(…).NetIP().To4()` give.
pub record SockAddr : Type 0 where
  pub text : String

-- types.go; `network` may be nil.
pub record NetworkConfig : Type 0 where
  pub network : Option SockAddr
  pub docker_net_name : String

pub record Config : Type 0 where
  pub config_dir : String
  pub data_dir : String
  pub log_dir : String
  pub network_config : NetworkConfig
  pub node_name : String
  pub tls : TlsConfigPem
  pub ports : Ports

-- The parts of the URL that the program sets, and the file of the CA.
pub record ApiConfig : Type 0 where
  pub scheme : String
  pub host : String
  pub ca_file : String

-- `filepath.Join` of two paths that are clean: an empty one is left out.
abbrev pub join : String → String → String
join dir name = if str_eq dir "" then name else if str_eq name "" then dir else dir <> ("/" <> name)

-- `runner.Config{Ports: ports, TLS: tls}`: the other fields are empty.
abbrev pub bare_config : Ports → TlsConfigPem → Config
bare_config ports tls = record {
  config_dir = "";
  data_dir = "";
  log_dir = "";
  network_config = record { network = none; docker_net_name = "" };
  node_name = "";
  tls = tls;
  ports = ports;
}

-- `x > 0` of an `int`
abbrev pub is_positive : ℕ → Bool
is_positive x = ltb 0 x && ltb x int_half

-- An argument that is left out when the setting is empty.
abbrev pub unless_empty : String → String → List String
unless_empty value argument = if str_eq value "" then [] else argument ∷ []

-- The text that makes an agent find its address in the network.
abbrev pub private_interface : String → String
private_interface network =
    "{{ GetPrivateInterfaces | include \"network\" \"" <> (network <> "\" | attr \"address\" }}")

-- The text by which an agent lists its addresses in the network.
abbrev pub all_interfaces : String → String
all_interfaces network =
    "GetAllInterfaces | include \"network\" \"" <> (network <> "\" | attr \"address\"")

abbrev pub network_or_loopback : Option SockAddr → String
network_or_loopback none = "127.0.0.0/8"
network_or_loopback (some network) = network.text
