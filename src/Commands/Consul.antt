-- ===== src/Commands/Consul.antt =====
-- consul/consul.go: the ports, the arguments and the files of a Consul agent.
pub mod Arguments
pub mod TlsFiles
use yurt.Prelude.{ℕ, String, ◌<>◌, Bool, true, false, List, [], ◌∷◌, ◌++◌, Option, none, some}
use yurt.Prelude.{Dict, insert, length, show_int, decimal, str_eq, ◌==◌, int_mod, if◌then◌else◌}
use yurt.Effects.{Result, ok, err, ◌>>=◌}
use yurt.Types.{Port, Ports, TlsConfigPem, no_port, port_of, tcp_only, udp_only, tcp_and_udp}
use yurt.Runner.{bare_config, unless_empty, private_interface, Config, NetworkConfig, SockAddr}
use yurt.Commands.Files.{Json, bool, string, Tls, add_tls, tls_or_empty, add_tls_json}

pub record ConsulPorts : Type 0 where
  pub http : ℕ
  pub dns : ℕ
  pub serf_lan : ℕ
  pub serf_wan : ℕ
  pub server : ℕ

unfoldable pub def_ports : ConsulPorts
def_ports = record { server = 8300; serf_lan = 8301; serf_wan = 8302; http = 8500; dns = 8600 }

unfoldable pub runner_ports : ConsulPorts → Ports
runner_ports c = record {
  kind = "consul";
  name_order = "server" ∷ "serf-lan" ∷ "serf-wan" ∷ "http" ∷ "dns" ∷ [];
  by_name =
      ("server", record { number = c.server; type = tcp_only })
      ∷ ("serf-lan", record { number = c.serf_lan; type = tcp_and_udp })
      ∷ ("serf-wan", record { number = c.serf_wan; type = tcp_and_udp })
      ∷ ("http", record { number = c.http; type = tcp_only })
      ∷ ("dns", record { number = c.dns; type = tcp_and_udp })
      ∷ [];
}

pub record ConsulConfig : Type 0 where
  pub common : Config
  pub server : Bool
  pub join_addrs : List String

-- `NewConfig`
unfoldable pub new_config : Bool → List String → Option TlsConfigPem → ConsulConfig
unfolding def_ports runner_ports
new_config server join_addrs tls = record {
  server = server;
  join_addrs = join_addrs;
  common = bare_config (runner_ports def_ports) (tls_or_empty tls);
}

-- `WithConfig`
abbrev pub with_config : ConsulConfig → Config → ConsulConfig
with_config cc cfg = record cc { common = cfg }

network_args : Option SockAddr → List String
network_args none = "-bind=127.0.0.1" ∷ []
network_args (some network) = "-client=0.0.0.0" ∷ ("-bind=" <> private_interface network.text) ∷ []

-- The body of the loop over the ports.
port_args : String → String → ℕ → List String
port_args cert port_name port =
    if port == 0
    then []
    else if str_eq port_name "http"
    then (if str_eq cert ""
        then "-https-port=-1" ∷ ("-http-port=" <> show_int port) ∷ []
        else "-http-port=-1" ∷ ("-https-port=" <> show_int port) ∷ [])
    else ("-" <> (port_name <> ("-port=" <> show_int port))) ∷ []

all_port_args : String → Ports → List String → List String
all_port_args cert ports [] = []
all_port_args cert ports (name ∷ names) =
    port_args cert name (port_of ports name).number ++ all_port_args cert ports names

join_args : List String → List String
join_args [] = []
join_args (addr ∷ addrs) = ("-retry-join=" <> addr) ∷ join_args addrs

server_args : Bool → List String → List String
server_args false join_addrs = []
server_args true join_addrs =
    "-ui" ∷ "-server" ∷ "-bootstrap-expect" ∷ decimal (length join_addrs) ∷ []

-- `Args`
unfoldable pub args : ConsulConfig → List String
unfolding network_args port_args all_port_args join_args server_args
args cc =
    ("agent" ∷ ("-data-dir=" <> common.data_dir) ∷ "-retry-interval=1s" ∷ [])
    ++ (network_args common.network_config.network
        ++ (unless_empty common.node_name ("-node=" <> common.node_name)
            ++ (unless_empty common.config_dir ("-config-dir=" <> common.config_dir)
                ++ (unless_empty common.log_dir ("-log-file=" <> (common.log_dir <> "/"))
                    ++ (all_port_args common.tls.cert common.ports common.ports.name_order
                        ++ (join_args join_addrs ++ server_args server join_addrs))))))
  where
    open cc use {common, server, join_addrs}

-- `Env`
abbrev pub env : List String
env = "CONSUL_DISABLE_PERM_MGMT=1" ∷ []

-- The TLS files and the configuration that names them.
unfoldable pub tls_config : TlsConfigPem → Tls
tls_config tls = add_tls "consul.pem" "consul-key.pem" tls (record {
  files = [];
  cfg =
      ("verify_incoming_rpc", bool true)
      ∷ ("verify_outgoing", bool true)
      ∷ ("verify_server_hostname", bool true)
      ∷ [];
})

abbrev pub common_hcl : String
common_hcl =
    "\ndisable_update_check = true\ntelemetry {\n  disable_hostname = true\n  prometheus_retention_time = \"10m\"\n}\nperformance {\n  raft_multiplier = 1\n}\n"

-- `Files`; `encode` is `jsonutil.EncodeJSON`, and an error of it ends the process.
unfoldable pub files : (Dict Json → Result String) → ConsulConfig → Result (Dict String)
files encode cc = do
  let t = tls_config cc.common.tls
  fs ← add_tls_json t.files (encode t.cfg)
  ok (insert "common.hcl" common_hcl fs)
