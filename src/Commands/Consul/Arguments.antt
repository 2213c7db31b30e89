-- ===== src/Commands/Consul/Arguments.antt =====
-- The HTTP ports among the arguments of a Consul agent.
use yurt.Prelude.{
  ℕ, String, ◌<>◌, ◌≡◌, sym, ◌∙◌, ◌≢◌, true, List, [], ◌∷◌, ◌++◌, contains, contains_left,
  contains_right, show_int, str_eq, eq_iff, eq_refl, arith, if◌then◌else◌, Bool-cases, inl, inr,
}
use text.Mathlib.TextLemmas.{append_assoc}
use yurt.Runner.{unless_empty}
use yurt.Types.{Ports, port_of}
use yurt.Commands.Consul.{
  ConsulConfig, args, all_port_args, port_args, network_args, join_args, server_args,
}

-- The argument that sets the port of a service.
abbrev pub port_option : String → String → String
port_option name value = "-" <> (name <> ("-port=" <> value))

abbrev pub served : String → String
served cert = if str_eq cert "" then "http" else "https"

abbrev pub closed : String → String
closed cert = if str_eq cert "" then "https" else "http"

http_option : (v : String) → port_option "http" v ≡ "-http-port=" <> v
http_option v =
    sym (append_assoc "-" "http" ("-port=" <> v)) ∙ sym (append_assoc "-http" "-port=" v)

https_option : (v : String) → port_option "https" v ≡ "-https-port=" <> v
https_option v =
    sym (append_assoc "-" "https" ("-port=" <> v)) ∙ sym (append_assoc "-https" "-port=" v)

port_args-http :
    (cert : String) (port : ℕ)
    → port ≢ 0
    → (contains (port_args cert "http" port) (port_option (served cert) (show_int port)) ≡ true)
      × (contains (port_args cert "http" port) (port_option (closed cert) "-1") ≡ true)
unfolding port_args
port_args-http cert port n = elim (Bool-cases (str_eq cert "")) [
  | inl e ↦
      rw e (ground (arith, http_option (show_int port), eq_refl ("-http-port=" <> show_int port)))
  | inr e ↦
      rw e (ground (arith, https_option (show_int port), eq_refl ("-https-port=" <> show_int port)))
]

all_port_args-http :
    (cert : String) (ports : Ports) (names : List String)
    → contains names "http" ≡ true
    → (port_of ports "http").number ≢ 0
    → (contains
          (all_port_args cert ports names)
          (port_option (served cert) (show_int (port_of ports "http").number))
        ≡ true)
      × (contains (all_port_args cert ports names) (port_option (closed cert) "-1") ≡ true)
unfolding all_port_args
all_port_args-http cert ports [] h n = absurd (ground arith)
all_port_args-http cert ports (x ∷ names) h n =
    let rest = all_port_args cert ports names in
    let on = port_option (served cert) (show_int (port_of ports "http").number) in
    let off = port_option (closed cert) "-1" in
    elim (Bool-cases (str_eq x "http")) [
      | inl e ↦
          let first = port_args cert "http" (port_of ports "http").number in
          let here = port_args-http cert (port_of ports "http").number n in
          rw ((eq_iff x "http").0 e)
            (contains_left first rest on here.0, contains_left first rest off here.1)
      | inr e ↦
          let first = port_args cert x (port_of ports x).number in
          let there = all_port_args-http cert ports names (ground arith) n in
          (contains_right first rest on there.0, contains_right first rest off there.1)
    ]

args-contains :
    (cc : ConsulConfig) (a : String)
    → contains (all_port_args cc.common.tls.cert cc.common.ports cc.common.ports.name_order) a
      ≡ true
    → contains (args cc) a ≡ true
unfolding args
args-contains cc a h =
    let joins = join_args cc.join_addrs ++ server_args cc.server cc.join_addrs in
    let ports = all_port_args common.tls.cert common.ports common.ports.name_order ++ joins in
    let logs = unless_empty common.log_dir ("-log-file=" <> (common.log_dir <> "/")) in
    let dirs = unless_empty common.config_dir ("-config-dir=" <> common.config_dir) in
    let nodes = unless_empty common.node_name ("-node=" <> common.node_name) in
    let nets = network_args common.network_config.network in
    contains_right ("agent" ∷ ("-data-dir=" <> common.data_dir) ∷ "-retry-interval=1s" ∷ [])
      (nets ++ (nodes ++ (dirs ++ (logs ++ ports)))) a
      (contains_right nets (nodes ++ (dirs ++ (logs ++ ports))) a (
        contains_right nodes (dirs ++ (logs ++ ports)) a (
          contains_right dirs (logs ++ ports) a (
            contains_right logs ports a (
              contains_left (all_port_args common.tls.cert common.ports common.ports.name_order)
                joins a h)))))
  where
    open cc use {common}

-- An agent with an HTTP port serves it over HTTPS if it has a certificate and over HTTP if not, and
-- closes the other: both options are among the arguments.
pub args-http :
    (cc : ConsulConfig)
    → contains cc.common.ports.name_order "http" ≡ true
    → (port_of cc.common.ports "http").number ≢ 0
    → (contains (args cc) (
          port_option
            (served cc.common.tls.cert)
            (show_int (port_of cc.common.ports "http").number))
        ≡ true)
      × (contains (args cc) (port_option (closed cc.common.tls.cert) "-1") ≡ true)
args-http cc h n =
    let p = all_port_args-http cc.common.tls.cert cc.common.ports cc.common.ports.name_order h n in
    let number = (port_of cc.common.ports "http").number in
    (
      args-contains cc (port_option (served cc.common.tls.cert) (show_int number)) p.0,
      args-contains cc (port_option (closed cc.common.tls.cert) "-1") p.1,
    )
