-- ===== src/Pki.antt =====
-- pki/ca.go: a certificate authority made of two PKI secrets engines of a Vault server.
pub mod Trace
pub mod Issuing
use yurt.Prelude.{
  String, ◌<>◌, List, [], ◌∷◌, Option, none, some, Dict, lookup, str_eq, if◌then◌else◌,
}
use yurt.Effects.{Error, Result, ok, err, panic}
use yurt.Effects.Calls.{Exec, pure, lift, call, ◌>>=◌, ◌>>◌}
use yurt.Types.{TlsConfigPem}

-- A value of a secret's data; an element that is no string is `none`.
pub data Value : Type 0 where
  word : String → Value
  sequence : List (Option String) → Value
  other : Value

pub data Event : Type 0 where
  generate_uuid : Event
  -- the path, the type and the `MaxLeaseTTL`
  mount : String → String → String → Event
  write : String → Dict String → Event

-- The Vault server, by its answers. A `write` answers with the data of the secret, which has no
-- keys if the response is nil: to read either is a panic.
pub record Api : Type 0 where
  pub address : String
  pub generate_uuid : List Event → Result String
  pub mount : String → List Event → Result (Unit {0})
  pub write : String → Dict String → List Event → Result (Dict Value)

-- `v.(string)`
abbrev word_of : Option Value → Result String
word_of (some (word s)) = ok s
word_of v = err (panic "interface conversion")

-- `v.([]interface{})`
abbrev sequence_of : Option Value → Result (List (Option String))
sequence_of (some (sequence l)) = ok l
sequence_of v = err (panic "interface conversion")

abbrev pub root_path : String → String
root_path prefix = prefix <> "-pki-root"

abbrev pub int_path : String → String
int_path prefix = prefix <> "-pki-int"

abbrev mount_pki : Api → String → String → Exec Event (Unit {0})
mount_pki api path max_lease_ttl = call (mount path "pki" max_lease_ttl) (api.mount path)

abbrev pub write_data : Api → String → Dict String → Exec Event (Dict Value)
write_data api path body = call (write path body) (api.write path body)

abbrev pub root_request : Dict String
root_request = ("common_name", "example.com") ∷ ("ttl", "87600h") ∷ []

abbrev pub urls : String → String → Dict String
urls address path =
    ("issuing_certificates", address <> ("/v1/" <> (path <> "/ca")))
    ∷ ("crl_distribution_point", address <> ("/v1/" <> (path <> "/crl")))
    ∷ []

-- `createRootCA`
unfoldable pub create_root : Api → String → Exec Event (Unit {0})
create_root api prefix = do
  mount_pki api (root_path prefix) "87600h"
  write_data api (root_path prefix <> "/root/generate/internal") root_request
  write_data api (root_path prefix <> "/config/urls") (urls api.address (root_path prefix))
  pure tt

abbrev pub int_request : Dict String
int_request = ("common_name", "example.com Intermediate Authority") ∷ ("ttl", "43800h") ∷ []

abbrev pub sign_request : String → Dict String
sign_request csr = ("csr", csr) ∷ ("format", "pem_bundle") ∷ []

-- The settings of a role for the servers of one domain.
abbrev pub role_settings : String → Dict String
role_settings domain =
    ("allowed_domains", domain)
    ∷ ("allow_subdomains", "true")
    ∷ ("allow_localhost", "true")
    ∷ ("allow_any_name", "true")
    ∷ ("allow_ip_sans", "true")
    ∷ ("max_ttl", "720h")
    ∷ []

abbrev pub role_path : String → String → String
role_path prefix role = int_path prefix <> ("/roles/" <> role)

-- `createIntermediateCA`
unfoldable pub create_intermediate : Api → String → Exec Event (Unit {0})
create_intermediate api prefix = do
  mount_pki api (int_path prefix) "43800h"
  generated ← write_data api (int_path prefix <> "/intermediate/generate/internal") int_request
  csr ← lift (word_of (lookup "csr" generated))
  signed ← write_data api (root_path prefix <> "/root/sign-intermediate") (sign_request csr)
  certificate ← lift (word_of (lookup "certificate" signed))
  issuing_ca ← lift (word_of (lookup "issuing_ca" signed))
  write_data api (int_path prefix <> "/intermediate/set-signed")
      (("certificate", certificate <> ("\n" <> issuing_ca)) ∷ [])
  write_data api (role_path prefix "consul-server") (role_settings "server.dc1.consul")
  write_data api (role_path prefix "nomad-server") (role_settings "server.global.nomad")
  write_data api (role_path prefix "vault-server") (role_settings "server.dc1.vault")
  pure tt

-- `NewCertificateAuthority`: the result is the field `path`.
unfoldable pub new_authority : Api → Exec Event String
new_authority api = do
  u ← call generate_uuid api.generate_uuid
  create_root api u
  create_intermediate api u
  pure u

-- `switch ip`
abbrev pub ip_sans : String → String
ip_sans ip = if str_eq ip "" then "127.0.0.1" else ip <> ",127.0.0.1"

-- The loop over `ca_chain`.
unfoldable pub add_chain : String → List (Option String) → Result String
add_chain cacert [] = ok cacert
add_chain cacert (some c ∷ chain) = add_chain (cacert <> (c <> "\n")) chain
add_chain cacert (none ∷ chain) = err (panic "interface conversion")

abbrev pub issue_request : String → String → String → Dict String
issue_request cn ip ttl =
    ("common_name", cn) ∷ ("alt_names", "localhost") ∷ ("ip_sans", ip_sans ip) ∷ ("ttl", ttl) ∷ []

abbrev pub issue_path : String → String → String
issue_path path role = path <> ("-pki-int/issue/" <> role)

-- `serverTLS`
unfoldable pub server_tls :
    Api → String → String → String → String → String → Exec Event TlsConfigPem
server_tls api path role cn ip ttl = do
  issued ← write_data api (issue_path path role) (issue_request cn ip ttl)
  chain ← lift (sequence_of (lookup "ca_chain" issued))
  cacert ← lift (add_chain "" chain)
  certificate ← lift (word_of (lookup "certificate" issued))
  private_key ← lift (word_of (lookup "private_key" issued))
  pure (record { ca = cacert; cert = certificate; private_key = private_key })

-- `ConsulServerTLS`
unfoldable pub consul_server_tls : Api → String → String → String → Exec Event TlsConfigPem
consul_server_tls api path ip ttl = server_tls api path "consul-server" "server.dc1.consul" ip ttl

-- `NomadServerTLS`
unfoldable pub nomad_server_tls : Api → String → String → String → Exec Event TlsConfigPem
nomad_server_tls api path ip ttl = server_tls api path "nomad-server" "server.global.nomad" ip ttl

-- `VaultServerTLS`
unfoldable pub vault_server_tls : Api → String → String → String → Exec Event TlsConfigPem
vault_server_tls api path ip ttl = server_tls api path "vault-server" "server.dc1.vault" ip ttl
