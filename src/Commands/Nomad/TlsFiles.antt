-- ===== src/Commands/Nomad/TlsFiles.antt =====
-- The TLS configuration of a Nomad agent and the files beside it.
use yurt.Prelude.{
  String, ◌≡◌, refl, ◌≢◌, ◌↔◌, none, some, Dict, lookup, insert, lookup-insert, eq_iff, arith,
  str_eq, if◌then◌else◌, ℕ, ◌&&◌, ◌==◌, Bool-cases, inl, inr,
}
use yurt.Effects.{Result, ok, bind_ok}
use yurt.Types.{TlsConfigPem}
use yurt.Commands.Files.{Json, string, add_tls_json, RefersTo, Tls}
use yurt.Commands.Files.References.{
  add_tls-RefersTo, RefersTo-insert, add_tls_json_lem, lookup-add_tls_json,
}
use yurt.Commands.Nomad.{
  NomadConfig, tls_config, all_config, consul_config, files, common_hcl, client_hcl,
}

tls_config-RefersTo : (tls : TlsConfigPem) → RefersTo (tls_config tls).cfg (tls_config tls).files
unfolding tls_config lookup
tls_config-RefersTo tls =
    add_tls-RefersTo "nomad.pem" "nomad-key.pem" tls _ (λ key file h. absurd (ground arith))

-- Without a CA no file ca.pem is written.
no_ca_file : (tls : TlsConfigPem) → (lookup "ca.pem" (tls_config tls).files ≡ none) ↔ (tls.ca ≡ "")
unfolding tls_config lookup insert
no_ca_file tls = ground (arith, eq_iff tls.ca "", eq_iff tls.cert "", eq_iff tls.private_key "")

no_client_file : (tls : TlsConfigPem) → lookup "client.hcl" (tls_config tls).files ≡ none
unfolding tls_config lookup insert
no_client_file tls = ground arith

consul_names_ca : lookup "ca_file" consul_config ≡ some (string "ca.pem")
unfolding lookup
consul_names_ca = refl

-- What `Files` adds last.
abbrev add_hcl : ℕ → String → Dict String → Dict String
add_hcl expect common files =
    let with_common = insert "common.hcl" common files in
    if expect == 0 then insert "client.hcl" client_hcl with_common else with_common

lookup-add_hcl :
    (j : String) (expect : ℕ) (common : String) (files : Dict String)
    → lookup j (add_hcl expect common files) ≡ (
        if str_eq "client.hcl" j && (expect == 0)
        then some client_hcl
        else if str_eq "common.hcl" j
        then some common
        else lookup j files)
lookup-add_hcl j expect common files = ground (
  arith,
  lookup-insert "client.hcl" j client_hcl (insert "common.hcl" common files),
  lookup-insert "common.hcl" j common files,
)

RefersTo-add_hcl :
    (cfg : Dict Json) (expect : ℕ) (common : String) (files : Dict String)
    → RefersTo cfg files
    → RefersTo cfg (add_hcl expect common files)
RefersTo-add_hcl cfg expect common files h =
    let h' = RefersTo-insert "common.hcl" common cfg files h in
    elim (Bool-cases (expect == 0)) [
      | inl e ↦ rw e (RefersTo-insert "client.hcl" client_hcl cfg _ h')
      | inr e ↦ rw e h'
    ]

-- When `Files` succeeds, every file that the "tls" part of the configuration names is among the
-- files; ca.pem, which the "consul" part always names, is missing exactly when no CA is set; and
-- client.hcl is there exactly for a client, whose bootstrap count is 0.
nomad_files-tls :
    (encode : Dict (Dict Json) → Result String) (nc : NomadConfig) (fs : Dict String)
    → files encode nc ≡ ok fs
    → RefersTo (tls_config nc.common.tls).cfg fs
      × (lookup "ca_file" consul_config ≡ some (string "ca.pem"))
      × ((lookup "ca.pem" fs ≡ none) ↔ (nc.common.tls.ca ≡ ""))
      × ((lookup "client.hcl" fs ≢ none) ↔ (nc.bootstrap_expect ≡ 0))
unfolding files
nomad_files-tls encode nc fs h =
    let (out, made, rest) = bind_ok (add_tls_json t.files (encode (all_config t.cfg))) _ h in
    let refers = (add_tls_json_lem t.cfg t.files out _ (tls_config-RefersTo tls) made).0 in
    let e : fs ≡ add_hcl nc.bootstrap_expect (common_hcl nc.common) out = ground arith in
    let at = λ (j : String). lookup-add_hcl j nc.bootstrap_expect (common_hcl nc.common) out in
    let ca = lookup-add_tls_json "ca.pem" t.files out _ refl made in
    let client = lookup-add_tls_json "client.hcl" t.files out _ refl made in
    rw e (
      RefersTo-add_hcl t.cfg nc.bootstrap_expect (common_hcl nc.common) out refers,
      consul_names_ca,
      ground (arith, at "ca.pem", ca, no_ca_file tls),
      ground (arith, at "client.hcl", client, no_client_file tls),
    )
  where
    open nc.common use {tls}

    t : Tls
    t = tls_config tls
