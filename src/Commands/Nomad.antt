-- ===== src/Commands/Nomad.antt =====
-- nomad/nomad.go: the ports, the arguments and the files of a Nomad agent.
pub mod TlsFiles
use yurt.Prelude.{ℕ, String, ◌<>◌, Bool, true, false, List, [], ◌∷◌, ◌++◌, Option, none, some}
use yurt.Prelude.{Dict, insert, ltb, show_int, str_eq, ◌==◌, int_half, ◌&&◌, if◌then◌else◌}
use yurt.Effects.{Result, ok, err, ◌>>=◌}
use yurt.Types.{Port, Ports, TlsConfigPem, port_of, tcp_only, tcp_and_udp}
use yurt.Runner.{
  Config, SockAddr, bare_config, unless_empty, private_interface, all_interfaces,
  network_or_loopback, is_positive,
}
use yurt.Commands.Files.{Json, bool, string, Tls, add_tls, add_tls_json, tls_or_empty}

pub record NomadPorts : Type 0 where
  pub http : ℕ
  pub serf : ℕ
  pub rpc : ℕ

unfoldable pub def_ports : NomadPorts
def_ports = record { http = 4646; serf = 4647; rpc = 4648 }

unfoldable pub runner_ports : NomadPorts → Ports
runner_ports c = record {
  kind = "nomad";
  name_order = "http" ∷ "serf" ∷ "rpc" ∷ [];
  by_name =
      ("http", record { number = c.http; type = tcp_only })
      ∷ ("serf", record { number = c.serf; type = tcp_and_udp })
      ∷ ("rpc", record { number = c.rpc; type = tcp_only })
      ∷ [];
}

-- `bootstrap_expect` is an `int`.
pub record NomadConfig : Type 0 where
  pub common : Config
  pub bootstrap_expect : ℕ
  pub consul_addr : String

-- `NewConfig`
unfoldable pub new_config : ℕ → String → Option TlsConfigPem → NomadConfig
unfolding def_ports runner_ports
new_config bootstrap_expect consul_addr tls = record {
  bootstrap_expect = bootstrap_expect;
  consul_addr = consul_addr;
  common = bare_config (runner_ports def_ports) (tls_or_empty tls);
}

-- `WithConfig`
abbrev pub with_config : NomadConfig → Config → NomadConfig
with_config nc cfg = record nc { common = cfg }

mode_args : ℕ → List String
mode_args expect =
    if is_positive expect
    then "-server" ∷ ("-bootstrap-expect=" <> show_int expect) ∷ []
    else "-client" ∷ []

bind_arg : Option SockAddr → String
bind_arg none = "-bind=127.0.0.1"
bind_arg (some network) = "-bind=" <> private_interface network.text

-- `Args`
unfoldable pub args : NomadConfig → List String
unfolding mode_args bind_arg
args nc =
    "agent"
    ∷ (mode_args bootstrap_expect
        ++ (unless_empty common.node_name ("-node=" <> common.node_name)
            ++ (unless_empty common.config_dir ("-config=" <> common.config_dir)
                ++ (unless_empty consul_addr ("-consul-address=" <> consul_addr)
                    ++ (("-data-dir=" <> common.data_dir)
                        ∷ "-retry-interval=1s"
                        ∷ "-consul-checks-use-advertise"
                        ∷ bind_arg common.network_config.network
                        ∷ [])))))
  where
    open nc use {common, bootstrap_expect, consul_addr}

-- The TLS files, and the value of "tls".
unfoldable pub tls_config : TlsConfigPem → Tls
tls_config tls = add_tls "nomad.pem" "nomad-key.pem" tls (record {
  files = [];
  cfg = ("http", bool true) ∷ ("rpc", bool true) ∷ ("verify_server_hostname", bool true) ∷ [];
})

-- The value of "consul", whatever TLS texts are set.
abbrev pub consul_config : Dict Json
consul_config = ("ssl", bool true) ∷ ("ca_file", string "ca.pem") ∷ []

-- The whole of what is encoded.
abbrev pub all_config : Dict Json → Dict (Dict Json)
all_config tls_cfg = ("tls", tls_cfg) ∷ ("consul", consul_config) ∷ []

advertise : String → String → String
advertise name network = name <> (" = <<EOF\n{{- " <> (all_interfaces network <> " -}}\nEOF\n"))

pub common_hcl : Config → String
common_hcl c =
    "\nadvertise { "
    <> (advertise "http" network
        <> (advertise "  rpc" network
            <> (advertise "  serf" network
                <> ("}\nports {\n  http = "
                    <> (show_int (port_of c.ports "http").number
                        <> ("\n  serf = "
                            <> (show_int (port_of c.ports "serf").number
                                <> ("\n  rpc = "
                                    <> (show_int (port_of c.ports "rpc").number
                                        <> ("\n}\ntelemetry {\n  disable_hostname = true\n  prometheus_metrics = true\n  publish_allocation_metrics = true\n}\ndisable_update_check = true\n"
                                            <> (if str_eq c.log_dir ""
                                                then ""
                                                else "log_file=\""
                                                  <> (c.log_dir <> "/\"\n"))))))))))))
  where
    network : String
    network = network_or_loopback c.network_config.network

abbrev pub client_hcl : String
client_hcl =
    "\nclient {\n  options = {\n    \"driver.blacklist\" = \"java\"\n  }\n}\nplugin \"raw_exec\" {\n  config {\n    enabled = true\n  }\n}\n"

-- `Files`; `encode` is `jsonutil.EncodeJSON`, and an error of it ends the process.
unfoldable pub files : (Dict (Dict Json) → Result String) → NomadConfig → Result (Dict String)
unfolding common_hcl advertise
files encode nc = do
  let t = tls_config nc.common.tls
  fs ← add_tls_json t.files (encode (all_config t.cfg))
  let with_common = insert "common.hcl" (common_hcl nc.common) fs
  ok (if nc.bootstrap_expect == 0 then insert "client.hcl" client_hcl with_common else with_common)
