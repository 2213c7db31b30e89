-- ===== src/Pki/Trace.antt =====
-- pki/ca.go, `NewCertificateAuthority`: what the creation of an authority asks the Vault server, in order.
use yurt.Prelude.{String, ◌<>◌, ◌≡◌, List, [], ◌∷◌, ◌++◌, arith, Dict, lookup, some}
use yurt.Effects.{ok}
use yurt.Pki.{
  Event, Api, mount, write, root_path, int_path, role_path, role_settings, root_request,
  int_request, sign_request, urls, create_root, create_intermediate, new_authority, Value,
  generate_uuid, word,
}
use yurt.Effects.Calls.{bind-eq-ok, call, pure, ◌>>=◌, ◌>>◌}

-- The calls for the root, the newest first.
abbrev pub root_calls : String → String → List Event
root_calls address u =
    write (root_path u <> "/config/urls") (urls address (root_path u))
    ∷ write (root_path u <> "/root/generate/internal") root_request
    ∷ mount (root_path u) "pki" "87600h"
    ∷ []

-- The calls for the intermediate, the newest first.
abbrev pub int_calls : String → String → String → List Event
int_calls u csr chain =
    write (role_path u "vault-server") (role_settings "server.dc1.vault")
    ∷ write (role_path u "nomad-server") (role_settings "server.global.nomad")
    ∷ write (role_path u "consul-server") (role_settings "server.dc1.consul")
    ∷ write (int_path u <> "/intermediate/set-signed") (("certificate", chain) ∷ [])
    ∷ write (root_path u <> "/root/sign-intermediate") (sign_request csr)
    ∷ write (int_path u <> "/intermediate/generate/internal") int_request
    ∷ mount (int_path u) "pki" "43800h"
    ∷ []

create_root_ok :
    (api : Api) (u : String) (h h' : List Event)
    → create_root api u h ≡ (ok tt, h')
    → h' ≡ root_calls api.address u ++ h
unfolding create_root
create_root_ok api u h h' e = ground arith

-- Vault answered `path` after `h` with a secret that has the text `value` under `key`.
abbrev pub Answered : Api → String → Dict String → List Event → String → String → Type 0
Answered api path body h key value =
    (secret : Dict Value) × (api.write path body h ≡ ok secret)
    × (lookup key secret ≡ some (word value))

-- The request that signs the intermediate, and the calls up to it.
abbrev pub generated : String → List Event → List Event
generated u h =
    write (int_path u <> "/intermediate/generate/internal") int_request
    ∷ mount (int_path u) "pki" "43800h"
    ∷ h

-- The signed chain and the CSR are the ones that Vault answered with.
abbrev pub SignedByRoot : Api → String → List Event → String → String → String → Type 0
SignedByRoot api u h csr certificate issuing_ca =
    Answered api (int_path u <> "/intermediate/generate/internal") int_request
      (mount (int_path u) "pki" "43800h" ∷ h) "csr" csr
    × Answered api (root_path u <> "/root/sign-intermediate") (sign_request csr) (generated u h)
        "certificate" certificate
    × Answered api (root_path u <> "/root/sign-intermediate") (sign_request csr) (generated u h)
        "issuing_ca" issuing_ca

create_intermediate_ok :
    (api : Api) (u : String) (h h' : List Event)
    → create_intermediate api u h ≡ (ok tt, h')
    → (csr : String) × (certificate : String) × (issuing_ca : String) × SignedByRoot api u h csr
        certificate issuing_ca
      × (h' ≡ int_calls u csr (certificate <> ("\n" <> issuing_ca)) ++ h)
unfolding create_intermediate
create_intermediate_ok api u h h' e = ground arith

-- When `NewCertificateAuthority` succeeds, it has made exactly these calls in this order: it took a
-- UUID, mounted and filled the root, mounted the intermediate, had the root sign the CSR that the
-- intermediate answered with, stored the certificate and the issuing CA of that answer as the chain
-- of the intermediate, and wrote the three roles. Its path is the UUID.
pub new_authority_ok :
    (api : Api) (h h' : List Event) (path : String)
    → new_authority api h ≡ (ok path, h')
    → (csr : String) × (certificate : String) × (issuing_ca : String) × (api.generate_uuid h
        ≡ ok path)
      × SignedByRoot api path
          (root_calls api.address path ++ (generate_uuid ∷ h))
          csr
          certificate
          issuing_ca
      × (h'
          ≡ int_calls path csr (certificate <> ("\n" <> issuing_ca))
            ++ (root_calls api.address path ++ (generate_uuid ∷ h)))
unfolding new_authority
new_authority_ok api h h' path e =
    let k2 = λ (u : String) (_ : Unit {0}). create_intermediate api u >> pure u in
    let (u, h1, e1, r1) =
      bind-eq-ok (call generate_uuid api.generate_uuid) (λ u. create_root api u >>= k2 u) h e in
    let (_, h2, e2, r2) = bind-eq-ok (create_root api u) (k2 u) h1 r1 in
    let (_, h3, e3, r3) = bind-eq-ok (create_intermediate api u) (λ _. pure u) h2 r2 in
    ground (arith, create_root_ok api u h1 h2 e2, create_intermediate_ok api u h2 h3 e3)
