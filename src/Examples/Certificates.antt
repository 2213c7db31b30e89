-- ===== src/Examples/Certificates.antt =====
-- pki/ca.go and the seals of vault/vault.go: a Vault server that answers everything.
use yurt.Prelude.{
  String, ◌<>◌, ◌≡◌, refl, ◌↔◌, none, some, List, [], ◌∷◌, ◌++◌, Dict, lookup, true, false,
}
use yurt.Effects.{Result, ok, err, external}
use yurt.Types.{TlsConfigPem}
use yurt.Pki.{
  Event, Api, Value, word, sequence, generate_uuid, write, role_path, role_settings, issue_path,
  issue_request, new_authority, server_tls, consul_server_tls,
}
use yurt.Pki.Trace.{new_authority_ok, SignedByRoot, root_calls, int_calls}
use yurt.Pki.Issuing.{tls_for-role, tls_for, consul, role, domain, Happened}
use yurt.Sealing
use yurt.Sealing.{SealStatus, Answer, status, unseal, new_seal_source, key_policy, seal_settings}
use yurt.Sealing.Unsealing.{unseal_iff, some_unsealed}
use yurt.Sealing.Source.{new_seal_source_ok, Mounted}
use yurt.Commands.Vault.{Seal}

-- Each secret holds all that anybody asks for.
abbrev secret : Dict Value
secret =
    ("csr", word "request")
    ∷ ("certificate", word "certificate")
    ∷ ("issuing_ca", word "root")
    ∷ ("private_key", word "key")
    ∷ ("ca_chain", sequence (some "intermediate" ∷ some "root" ∷ []))
    ∷ []

abbrev vault_api : Api
vault_api = record {
  address = "http://127.0.0.1:8200";
  generate_uuid = λ h. ok "u";
  mount = λ path h. ok tt;
  write = λ path body h. ok secret;
}

abbrev created : List Event
created =
    int_calls "u" "request" ("certificate" <> ("\n" <> "root"))
    ++ (root_calls "http://127.0.0.1:8200" "u" ++ (generate_uuid ∷ []))

creation : new_authority vault_api [] ≡ (ok "u", created)
unfolding new_authority yurt.Pki.create_root yurt.Pki.create_intermediate lookup
creation = refl

new_authority_ok_example :
    (csr : String) × (certificate : String) × (issuing_ca : String) × (vault_api.generate_uuid []
      ≡ ok "u")
    × SignedByRoot vault_api "u"
        (root_calls vault_api.address "u" ++ (generate_uuid ∷ []))
        csr
        certificate
        issuing_ca
    × (created
        ≡ int_calls "u" csr (certificate <> ("\n" <> issuing_ca))
          ++ (root_calls vault_api.address "u" ++ (generate_uuid ∷ [])))
new_authority_ok_example = new_authority_ok vault_api [] created "u" creation

abbrev issued : TlsConfigPem
issued = record { ca = "intermediate\nroot\n"; cert = "certificate"; private_key = "key" }

abbrev request : Dict String
request = issue_request "server.dc1.consul" "10.0.0.2" "24h"

issue :
    server_tls vault_api "u" "consul-server" "server.dc1.consul" "10.0.0.2" "24h" created
    ≡ (ok issued, write (issue_path "u" "consul-server") request ∷ created)
unfolding server_tls lookup yurt.Pki.add_chain
issue = refl

consul_issue :
    tls_for consul vault_api "u" "10.0.0.2" "24h" created
    ≡ (ok issued, write (issue_path "u" "consul-server") request ∷ created)
unfolding consul_server_tls
consul_issue = issue

tls_for-role_example :
    Happened (write (role_path "u" (role consul)) (role_settings (domain consul))) created
    × (write (issue_path "u" "consul-server") request ∷ created
        ≡ write (issue_path "u" (role consul)) (issue_request (domain consul) "10.0.0.2" "24h")
          ∷ created)
tls_for-role_example =
    tls_for-role consul vault_api [] created "u" "10.0.0.2" "24h" created
      (write (issue_path "u" "consul-server") request ∷ created) issued creation consul_issue

abbrev open_status : SealStatus
open_status = record { sealed = false; initialized = true }

abbrev seal_answers : List (Result SealStatus)
seal_answers = err (external "connection refused") ∷ ok open_status ∷ []

abbrev later : List Answer
later = (none, some (external "standby")) ∷ (some open_status, none) ∷ []

unsealed : unseal (ok open_status) later ≡ none
unfolding unseal
unsealed = refl

unseal_iff_example : (unseal (ok open_status) later ≡ none) ↔ (
    ((s : SealStatus) × (◌≡◌ {A = Result SealStatus} (ok open_status) (ok s))
      × (s.sealed ≡ false)
      × (s.initialized ≡ true))
    × (some_unsealed later ≡ true))
unseal_iff_example = unseal_iff (ok open_status) later

-- The engine is there already.
abbrev seal_api : Sealing.Api
seal_api = record {
  address = "http://127.0.0.1:8200";
  mount = λ h. err (external "path is already in use");
  list_mounts = λ h. ok (("sys/", "system") ∷ ("transit/", "transit") ∷ []);
  write_key = λ path h. ok tt;
  put_policy = λ h. ok tt;
  create_token = λ h. ok "s.token";
}

abbrev seal : Seal
seal = record { type = "transit"; config = seal_settings "http://127.0.0.1:8200" "s.token" "yurt" }

abbrev seal_trace : List Sealing.Event
seal_trace =
    Sealing.create_token ("transit-seal-client" ∷ [])
    ∷ Sealing.put_policy "transit-seal-client" (key_policy "yurt")
    ∷ Sealing.write_key "transit/keys/yurt"
    ∷ Sealing.list_mounts
    ∷ Sealing.mount "transit" "transit"
    ∷ []

seal_made : new_seal_source seal_api "yurt" [] ≡ (ok seal, seal_trace)
unfolding new_seal_source Sealing.mount_transit Sealing.found_transit Sealing.make_seal
seal_made = refl

new_seal_source_ok_example :
    (h1 : List Sealing.Event) × Mounted seal_api [] h1
    × (seal_trace
        ≡ Sealing.create_token ("transit-seal-client" ∷ [])
          ∷ Sealing.put_policy "transit-seal-client" (key_policy "yurt")
          ∷ Sealing.write_key ("transit/keys/" <> "yurt")
          ∷ h1)
    × ((token : String) × (seal.config ≡ seal_settings seal_api.address token "yurt")
        × (seal_api.create_token (
              Sealing.put_policy "transit-seal-client" (key_policy "yurt")
              ∷ Sealing.write_key ("transit/keys/" <> "yurt")
              ∷ h1)
            ≡ ok token))
new_seal_source_ok_example = new_seal_source_ok seal_api "yurt" [] seal_trace seal seal_made
