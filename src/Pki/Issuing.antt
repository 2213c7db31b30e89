-- ===== src/Pki/Issuing.antt =====
-- pki/ca.go: certificates for servers.
use yurt.Prelude.{
  String, ◌<>◌, ◌≡◌, refl, ap, ◌∙◌, List, [], ◌∷◌, ◌++◌, Option, some, none, lookup, Dict, arith,
}
use text.Mathlib.TextLemmas.{append_assoc, append-nil, nil-append}
use yurt.Types.{TlsConfigPem}
use yurt.Effects.{ok}
use yurt.Effects.Calls.{Exec}
use yurt.Pki.{
  Event, Api, Value, write, word, sequence, issue_path, role_path, issue_request, role_settings,
  add_chain, server_tls, new_authority, consul_server_tls, nomad_server_tls, vault_server_tls,
  generate_uuid,
}
use yurt.Pki.Trace.{new_authority_ok, int_calls, root_calls}

-- Each text with a newline behind it.
abbrev pub lines : List String → String
lines [] = ""
lines (c ∷ cs) = (c <> "\n") <> lines cs

abbrev pub strings : List String → List (Option String)
strings [] = []
strings (c ∷ cs) = some c ∷ strings cs

add_chain_ok :
    (cacert ca : String) (chain : List (Option String))
    → add_chain cacert chain ≡ ok ca
    → (cs : List String) × (chain ≡ strings cs) × (ca ≡ cacert <> lines cs)
unfolding add_chain
add_chain_ok cacert ca [] e = ([], refl, ground (arith, append-nil cacert))
add_chain_ok cacert ca (none ∷ chain) e = absurd (ground arith)
add_chain_ok cacert ca (some c ∷ chain) e =
    let (cs, k, l) = add_chain_ok (cacert <> (c <> "\n")) ca chain e in
    (c ∷ cs, ground arith, l ∙ append_assoc cacert (c <> "\n") (lines cs))

server_tls_chain :
    (api : Api) (path role cn ip ttl : String) (h h' : List Event) (tls : TlsConfigPem)
    → server_tls api path role cn ip ttl h ≡ (ok tls, h')
    → (h' ≡ write (issue_path path role) (issue_request cn ip ttl) ∷ h)
      × ((secret : Dict Value) × (chain : List (Option String)) × (api.write
              (issue_path path role)
              (issue_request cn ip ttl)
              h
            ≡ ok secret)
          × (lookup "certificate" secret ≡ some (word tls.cert))
          × (lookup "private_key" secret ≡ some (word tls.private_key))
          × (lookup "ca_chain" secret ≡ some (sequence chain))
          × (add_chain "" chain ≡ ok tls.ca))
unfolding server_tls
server_tls_chain api path role cn ip ttl h h' tls e = ground arith

-- When a certificate is issued, one request was made, for the name and the addresses given and the
-- local host. The certificate and the key are those of its answer, and the CA text is the answer's
-- chain, each certificate ended by a newline.
server_tls_ok :
    (api : Api) (path role cn ip ttl : String) (h h' : List Event) (tls : TlsConfigPem)
    → server_tls api path role cn ip ttl h ≡ (ok tls, h')
    → (h' ≡ write (issue_path path role) (issue_request cn ip ttl) ∷ h)
      × ((secret : Dict Value) × (cs : List String) × (api.write
              (issue_path path role)
              (issue_request cn ip ttl)
              h
            ≡ ok secret)
          × (lookup "certificate" secret ≡ some (word tls.cert))
          × (lookup "private_key" secret ≡ some (word tls.private_key))
          × (lookup "ca_chain" secret ≡ some (sequence (strings cs)))
          × (tls.ca ≡ lines cs))
server_tls_ok api path role cn ip ttl h h' tls e =
    let (one, rest) = server_tls_chain api path role cn ip ttl h h' tls e in
    let (secret, chain, answer, cert, key, ca, texts) = rest in
    let (cs, all, joined) = add_chain_ok "" tls.ca chain texts in
    (
      one,
      (
        secret,
        cs,
        answer,
        cert,
        key,
        ca ∙ ap (λ (l : List (Option String)). some (sequence l)) all,
        joined ∙ nil-append (lines cs),
      ),
    )

-- The servers that get certificates.
pub data Server : Type 0 where
  consul nomad vault : Server

abbrev pub role : Server → String
role consul = "consul-server"
role nomad = "nomad-server"
role vault = "vault-server"

abbrev pub domain : Server → String
domain consul = "server.dc1.consul"
domain nomad = "server.global.nomad"
domain vault = "server.dc1.vault"

-- The method of the authority for a server.
abbrev pub tls_for : Server → Api → String → String → String → Exec Event TlsConfigPem
tls_for consul = consul_server_tls
tls_for nomad = nomad_server_tls
tls_for vault = vault_server_tls

-- `e` is among the events.
abbrev pub Happened : Event → List Event → Type 0
Happened e h = (newer : List Event) × (older : List Event) × (h ≡ newer ++ (e ∷ older))

role_written :
    (s : Server) (path csr chain : String) (h : List Event)
    → Happened
        (write (role_path path (role s)) (role_settings (domain s)))
        (int_calls path csr chain ++ h)
role_written vault path csr chain h = ([], _, refl)
role_written nomad path csr chain h = (_ ∷ [], _, refl)
role_written consul path csr chain h = (_ ∷ _ ∷ [], _, refl)

-- For each kind of server, the certificates of an authority that was created successfully are asked
-- of a role that the creation wrote, under the domain that this role allows.
pub tls_for-role :
    (s : Server) (api : Api) (h0 h1 : List Event) (path ip ttl : String) (h h' : List Event)
    (tls : TlsConfigPem)
    → new_authority api h0 ≡ (ok path, h1)
    → tls_for s api path ip ttl h ≡ (ok tls, h')
    → Happened (write (role_path path (role s)) (role_settings (domain s))) h1
      × (h' ≡ write (issue_path path (role s)) (issue_request (domain s) ip ttl) ∷ h)
unfolding consul_server_tls nomad_server_tls vault_server_tls
tls_for-role s api h0 h1 path ip ttl h h' tls made issued =
    let (csr, certificate, issuing_ca, _, _, trace) = new_authority_ok api h0 h1 path made in
    let (newer, older, here) =
      role_written s path csr (certificate <> ("\n" <> issuing_ca))
        (root_calls api.address path ++ (generate_uuid ∷ h0)) in
    ((newer, older, trace ∙ here), asked s issued)
  where
    asked :
        (s : Server)
        → tls_for s api path ip ttl h ≡ (ok tls, h')
        → h' ≡ write (issue_path path (role s)) (issue_request (domain s) ip ttl) ∷ h
    asked consul i =
        (server_tls_ok api path "consul-server" "server.dc1.consul" ip ttl h h' tls i).0
    asked nomad i =
        (server_tls_ok api path "nomad-server" "server.global.nomad" ip ttl h h' tls i).0
    asked vault i = (server_tls_ok api path "vault-server" "server.dc1.vault" ip ttl h h' tls i).0
