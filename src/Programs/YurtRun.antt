-- ===== src/Programs/YurtRun.antt =====
-- cmd/yurt-run/main.go: the configuration of a node, and the agents that it runs. `log.Fatal` ends
-- the program with an error.
pub mod ConfigFile
pub mod Agents
pub mod Running
pub mod Addresses
use yurt.Prelude.{
  if◌then◌else◌, String, ◌<>◌, Bool, true, false, ◌&&◌, not, List, [], ◌∷◌, Option, none, some,
  length, contains, str_eq, split, before_last, show_int,
}
use yurt.Effects.{Result, ok, err, message, wrapped, panic}
use yurt.Effects.Calls.{Exec, pure, raise, lift, call, attempt, ◌>>=◌, ◌>>◌}
use yurt.Types.{TlsConfigPem}
use yurt.Runner.{join}
use yurt.Commands.Command.{Command}
use yurt.Commands.Consul
use yurt.Commands.Nomad

-- The network is kept apart from the configuration.
pub record YurtConfig : Type 0 where
  pub data_dir : String
  pub tls : Bool
  pub network_cidr : String
  pub consul_server_ips : List String
  pub consul_bin : String
  pub nomad_bin : String
  pub ca_cert_file : String
  pub server_ip : String
  pub tls_config : Option TlsConfigPem

-- `IsConsulServer`
unfoldable pub is_consul_server : YurtConfig → Bool
is_consul_server c = contains c.consul_server_ips c.server_ip

pub record Flags : Type 0 where
  pub config_file : String
  pub consul_bin : String
  pub consul_ips : String
  pub data_dir : String
  pub network_cidr : String
  pub nomad_bin : String
  pub tls : Bool
  pub vault_addr : String

pub data Event : Type 0 where
  load_config read_file : String → Event
  new_authority : String → Event
  consul_server_tls : String → String → Event
  write_file : String → String → Event
  new_env : String → Event
  hostname : Event
  run : Command → String → Event

-- What is outside: the library of addresses, the files, the authority and the environment. `parses`
-- is `certutil.ParsePEMBundle`, and `load_config` reads and decodes the file.
pub record Host : Type 1 where
  pub Addr : Type 0
  pub parse : String → Result Addr
  pub within : Addr → Addr → Bool
  pub interfaces : Result (List Addr)
  pub ip : Addr → String
  pub load_config : String → List Event → Result YurtConfig
  pub read_file : String → List Event → Result String
  pub parses : String → Bool
  pub new_authority : String → List Event → Result (Unit {0})
  pub consul_server_tls : String → String → List Event → Result TlsConfigPem
  pub write_file : String → String → List Event → Result (Unit {0})
  pub new_env : String → List Event → Result (Unit {0})
  pub hostname : List Event → Result String
  pub run : Command → String → List Event → Result (Unit {0})

abbrev pub flag_config : Flags → YurtConfig
flag_config f = record {
  data_dir = f.data_dir;
  tls = f.tls;
  network_cidr = f.network_cidr;
  consul_server_ips = split f.consul_ips ",";
  consul_bin = f.consul_bin;
  nomad_bin = f.nomad_bin;
  ca_cert_file = "";
  server_ip = "";
  tls_config = none;
}

abbrev pub is_empty : List String → Bool
is_empty [] = true
is_empty (x ∷ l) = false

-- `reflect.DeepEqual(*yc, noArgsGiven)`, for a configuration made from flags
unfoldable pub no_args_given : YurtConfig → Bool
no_args_given c =
    str_eq c.data_dir "/var/yurt"
    && not c.tls
    && str_eq c.network_cidr ""
    && is_empty c.consul_server_ips
    && str_eq c.consul_bin ""
    && str_eq c.nomad_bin ""

-- The choice between the flags and the file.
unfoldable pub choose_config : Host → Flags → Exec Event YurtConfig
choose_config w f =
    if str_eq f.config_file ""
    then pure (flag_config f)
    else if no_args_given (flag_config f)
    then call (load_config f.config_file) (w.load_config f.config_file)
    else raise (message "cannot provide other arguments along with -config-file")

-- The network of a /24 when none is given.
unfoldable pub network_cidr : YurtConfig → Result String
network_cidr c =
    if str_eq c.network_cidr ""
    then elim c.consul_server_ips [
      | [] ↦ err (panic "index out of range")
      | ip ∷ ips ↦ elim (before_last ip ".") [
        | none ↦ err (message "bad consul ip")
        | some prefix ↦ ok (prefix <> ".0/24")
      ]
    ]
    else ok c.network_cidr

-- `for _, ip := range yc.ConsulServerIPs { … }`
unfoldable pub check_ips : (w : Host) → w.Addr → List String → Result (Unit {0})
check_ips w network [] = ok tt
check_ips w network (ip ∷ ips) = elim (w.parse ip) [
  | err e ↦ err (wrapped "bad consul ip" e)
  | ok addr ↦
      if w.within network addr
      then check_ips w network ips
      else err (message "consul ip is not contained in network")
]

-- The last interface in the network gives the address.
unfoldable pub own_ip : (w : Host) → w.Addr → String → List w.Addr → String
own_ip w network found [] = found
own_ip w network found (a ∷ interfaces) =
    own_ip w network (if w.within network a then w.ip a else found) interfaces

unfoldable pub find_ip : (w : Host) → w.Addr → Result String
find_ip w network = elim w.interfaces [
  | err e ↦ err (wrapped "error listing interfaces" e)
  | ok interfaces ↦
      if str_eq (own_ip w network "" interfaces) ""
      then err (message "network interface for network_cidr not found")
      else ok (own_ip w network "" interfaces)
]

unfoldable pub wrap_error {ℓ} : {A : Type ℓ} → String → Result A → Result A
wrap_error text (ok a) = ok a
wrap_error text (err e) = err (wrapped text e)

abbrev pub ca_file_of : YurtConfig → String
ca_file_of c = if str_eq c.ca_cert_file "" then join c.data_dir "ca.pem" else c.ca_cert_file

abbrev pub is_bundle : Host → Result String → Bool
is_bundle w (ok contents) = w.parses contents
is_bundle w (err e) = false

-- `ioutil.WriteFile`, with the text of the error around it
abbrev pub write : Host → String → String → String → Exec Event (Unit {0})
write w path text failed =
    call (write_file path text) (λ h. wrap_error failed (w.write_file path text h))

-- The part of `setupTLS` that makes a new certificate.
unfoldable pub make_tls : Host → YurtConfig → String → String → Exec Event YurtConfig
make_tls w c vault_addr ca_file = do
  call (new_authority vault_addr) (λ h.
      wrap_error "error setting up external certificate authority" (w.new_authority vault_addr h))
  cert ← call (consul_server_tls c.server_ip "168h") (λ h.
      wrap_error "error generating Consul server certificate"
        (w.consul_server_tls c.server_ip "168h" h))
  write w (join c.data_dir "consul.pem") cert.cert "error writing cert"
  write w (join c.data_dir "consul-key.pem") cert.private_key "error writing cert key"
  write w ca_file cert.ca "error writing CA"
  pure (record c { tls_config = some cert })

-- The CA that was stored is used, if there is one; no certificate is read then.
unfoldable pub use_stored : Host → YurtConfig → String → Result String → Exec Event YurtConfig
use_stored w c vault_addr contents =
    if is_bundle w contents
    then pure (record c { ca_cert_file = ca_file_of c })
    else make_tls w c vault_addr (ca_file_of c)

-- `setupTLS`
unfoldable pub setup_tls : Host → YurtConfig → String → Exec Event YurtConfig
setup_tls w c vault_addr =
    attempt (call (read_file (ca_file_of c)) (w.read_file (ca_file_of c)))
    >>= use_stored w c vault_addr

-- `runConsul` and `runNomad`, for their commands
unfoldable pub run_agent : Host → Command → Exec Event (Unit {0})
run_agent w command = do
  name ← call hostname (λ h. wrap_error "error getting hostname" (w.hostname h))
  call (run command name) (w.run command name)

unfoldable pub consul_command : YurtConfig → Command
consul_command c =
    Command.consul (Consul.new_config (is_consul_server c) c.consul_server_ips c.tls_config)

unfoldable pub nomad_command : YurtConfig → Command
nomad_command c = Command.nomad (
    Nomad.new_config (if is_consul_server c then length c.consul_server_ips else 0)
      ("127.0.0.1:" <> show_int Consul.def_ports.http) c.tls_config)

-- The checks of `main`, which find the address of the node.
unfoldable pub locate : Host → YurtConfig → Exec Event YurtConfig
locate w c = do
  cidr ← lift (network_cidr c)
  network ← lift (wrap_error "bad cidr" (w.parse cidr))
  lift (check_ips w network c.consul_server_ips)
  ip ← lift (find_ip w network)
  pure (record c { network_cidr = cidr; server_ip = ip })

-- `if *flagVaultAddr != "" { … }`
unfoldable pub secure : Host → Flags → YurtConfig → Exec Event YurtConfig
secure w f c = if str_eq f.vault_addr "" then pure c else setup_tls w c f.vault_addr

-- `main`, up to the wait for the agents.
unfoldable pub main : Host → Flags → Exec Event YurtConfig
main w f = do
  c ← choose_config w f
  c ← locate w c
  c ← secure w f c
  call (new_env f.data_dir) (λ h. wrap_error "error creating env" (w.new_env f.data_dir h))
  run_agent w (consul_command c)
  run_agent w (nomad_command c)
  pure c
