-- ===== src/Commands/Vault.antt =====
-- vault/vault.go: the ports, the arguments and the files of a Vault server.
pub mod Storage
use yurt.Prelude.{ℕ, String, ◌<>◌, Bool, List, [], ◌∷◌, Option, none, some}
use yurt.Prelude.{Dict, insert, ltb, length, show_int, str_eq, if◌then◌else◌}
use yurt.Types.{Ports, TlsConfigPem, port_of, tcp_only}
use yurt.Runner.{Config, bare_config, all_interfaces, network_or_loopback, is_positive}
use yurt.Commands.Files.{tls_or_empty}

pub record VaultPorts : Type 0 where
  pub http : ℕ
  pub cluster : ℕ

unfoldable pub def_ports : VaultPorts
def_ports = record { http = 8200; cluster = 8201 }

unfoldable pub runner_ports : VaultPorts → Ports
runner_ports c = record {
  kind = "vault";
  name_order = "http" ∷ "cluster" ∷ [];
  by_name =
      ("http", record { number = c.http; type = tcp_only })
      ∷ ("cluster", record { number = c.cluster; type = tcp_only })
      ∷ [];
}

pub record Seal : Type 0 where
  pub type : String
  pub config : Dict String

-- `raft_perf_multiplier` is an `int`.
pub record VaultConfig : Type 0 where
  pub common : Config
  pub join_addrs : List String
  pub consul_addr : String
  pub consul_path : String
  pub seal : Option Seal
  pub old_seal : Option Seal
  pub raft_perf_multiplier : ℕ

-- `NewRaftConfig`
unfoldable pub new_raft_config : List String → Option TlsConfigPem → ℕ → VaultConfig
unfolding def_ports runner_ports
new_raft_config join_addrs tls raft_perf_multiplier = record {
  common = bare_config (runner_ports def_ports) (tls_or_empty tls);
  join_addrs = join_addrs;
  consul_addr = "";
  consul_path = "";
  seal = none;
  old_seal = none;
  raft_perf_multiplier = raft_perf_multiplier;
}

-- `NewConsulConfig`
unfoldable pub new_consul_config : String → String → Option TlsConfigPem → VaultConfig
unfolding def_ports runner_ports
new_consul_config consul_addr consul_path tls = record {
  common = bare_config (runner_ports def_ports) (tls_or_empty tls);
  join_addrs = [];
  consul_addr = consul_addr;
  consul_path = consul_path;
  seal = none;
  old_seal = none;
  raft_perf_multiplier = 0;
}

-- `WithConfig`
abbrev pub with_config : VaultConfig → Config → VaultConfig
with_config vc cfg = record vc { common = cfg }

-- `Args`
unfoldable pub args : VaultConfig → List String
args vc = "server" ∷ ("-config=" <> vc.common.config_dir) ∷ []

retry_join : String → String → List String → String
retry_join scheme ca [] = ""
retry_join scheme ca (j ∷ addrs) =
    "\n  retry_join {\n    leader_api_addr = \""
    <> (scheme <> ("://" <> (j <> ("\"\n    " <> (ca <> ("\n  }" <> retry_join scheme ca addrs))))))

-- `raftConfig`
raft_config : VaultConfig → String
unfolding retry_join
raft_config vc =
    "\nstorage \"raft\" {\n  path = \""
    <> (common.data_dir
        <> ("\"\n  node_id = \""
            <> (common.node_name
                <> ("\"\n  performance_multiplier = \""
                    <> (show_int perf_multiplier <> ("\"\n  " <> (joins <> "\n}\n")))))))
  where
    open vc use {common, join_addrs, raft_perf_multiplier}

    no_cert : Bool
    no_cert = str_eq common.tls.cert ""

    joins : String
    joins =
        if ltb 1 (length join_addrs)
        then retry_join (if no_cert then "http" else "https")
            (if no_cert then "" else "leader_ca_cert_file = \"ca.pem\"") join_addrs
        else ""

    perf_multiplier : ℕ
    perf_multiplier = if is_positive raft_perf_multiplier then raft_perf_multiplier else 1

-- `consulConfig`
consul_config : VaultConfig → String
consul_config vc =
    "\nstorage \"consul\" {\n  address = \""
    <> (vc.consul_addr
        <> ("\"\n  path = \""
            <> (vc.consul_path
                <> ("\"\n"
                    <> ((if str_eq vc.common.tls.cert ""
                          then ""
                          else "\n    scheme = \"https\"\n    tls_ca_file = \"ca.pem\"\n    tls_cert_file = \"vault.pem\"\n    tls_key_file = \"vault-key.pem\"\n")
                        <> "\n}\n\t")))))

-- The files of the TLS configuration, and the lines that name them.
pub record VaultTls : Type 0 where
  pub files : Dict String
  pub lines : String

unfoldable pub vault_tls : TlsConfigPem → VaultTls
vault_tls tls =
    let with_cert =
      if str_eq tls.cert ""
      then []
      else insert "vault-key.pem" tls.private_key (insert "vault.pem" tls.cert []) in
    let cert_lines =
      if str_eq tls.cert ""
      then ""
      else "  tls_cert_file = \"vault.pem\"\n  tls_key_file = \"vault-key.pem\"\n" in
    if str_eq tls.ca "" then record { files = with_cert; lines = cert_lines } else record {
      files = insert "ca.pem" tls.ca with_cert;
      lines = cert_lines <> "  tls_client_ca_file = \"ca.pem\"\n";
    }

-- The listener, the addresses and the telemetry.
unfoldable server_config : Config → String → String
server_config c tls_lines =
    "\ndisable_mlock = true\nlog_level = \"info\"\nlog_requests_level = \"trace\"\nui = true\napi_addr = <<EOF\n"
    <> ((if plain then "http" else "https")
        <> ("://"
            <> (listener_addr
                <> ("\nEOF\ncluster_addr = <<EOF\nhttps://"
                    <> (network
                        <> (":"
                            <> (show_int (port_of c.ports "cluster").number
                                <> ("\nEOF\nlistener \"tcp\" {\n  telemetry {\n\tunauthenticated_metrics_access = true\n  }\n  address = <<EOF\n"
                                    <> (listener_addr
                                        <> ("\nEOF\n  tls_disable = "
                                            <> ((if plain then "true" else "false")
                                                <> ("\n  tls_disable_client_certs = true\n"
                                                    <> (tls_lines
                                                        <> "\n}\ntelemetry {\n  disable_hostname = true\n  prometheus_retention_time = \"10m\"\n}\n")))))))))))))
  where
    plain : Bool
    plain = str_eq c.tls.cert ""

    network : String
    network = "{{- " <> (all_interfaces (network_or_loopback c.network_config.network) <> " -}}")

    listener_addr : String
    listener_addr = network <> (":" <> show_int (port_of c.ports "http").number)

-- The entries of a seal, in the order in which `range` visits them.
key_values : Dict String → List String
key_values [] = []
key_values ((k, v) ∷ m) = (k <> (" = \"" <> (v <> "\""))) ∷ key_values m

-- `strings.Join(kvals, "\n  ")`
join_lines : List String → String
join_lines [] = ""
join_lines (x ∷ []) = x
join_lines (x ∷ y ∷ l) = x <> ("\n  " <> join_lines (y ∷ l))

seal_stanza : String → List String → String
unfolding join_lines
seal_stanza type lines = "\nseal \"" <> (type <> ("\" {\n  " <> (join_lines lines <> "\n}\n")))

unfoldable seal_config : Option Seal → String
unfolding key_values seal_stanza
seal_config none = ""
seal_config (some s) = seal_stanza s.type (key_values s.config)

unfoldable old_seal_config : Option Seal → String
unfolding key_values seal_stanza
old_seal_config none = ""
old_seal_config (some s) = seal_stanza s.type ("disabled = \"true\"" ∷ key_values s.config)

-- The storage stanza: Consul if its address is set, else raft.
storage_config : VaultConfig → String
storage_config vc = if str_eq vc.consul_addr "" then raft_config vc else consul_config vc

-- The text of vault.hcl.
pub config_hcl : VaultConfig → String
config_hcl vc =
    server_config vc.common (vault_tls vc.common.tls).lines
    <> (storage_config vc <> (seal_config vc.seal <> old_seal_config vc.old_seal))

-- `Files`
pub files : VaultConfig → Dict String
files vc = insert "vault.hcl" (config_hcl vc) (vault_tls vc.common.tls).files
