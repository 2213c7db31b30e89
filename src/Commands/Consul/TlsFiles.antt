-- ===== src/Commands/Consul/TlsFiles.antt =====
-- consul/consul.go: the TLS configuration of a Consul agent and the files beside it.
use yurt.Prelude.{
  [], String, ◌≡◌, ◌↔◌, none, some, Dict, lookup, insert, lookup-insert, eq_iff, arith, eq_refl,
}
use yurt.Effects.{Result, ok, bind_ok}
use yurt.Types.{TlsConfigPem, no_tls}
use yurt.Commands.Files.{Json, add_tls_json, RefersTo}
use yurt.Commands.Files.References.{add_tls-RefersTo, RefersTo-insert, add_tls_json_lem}
use yurt.Commands.Consul.{ConsulConfig, tls_config, files, common_hcl, Tls}

tls_config-RefersTo : (tls : TlsConfigPem) → RefersTo (tls_config tls).cfg (tls_config tls).files
unfolding tls_config lookup
tls_config-RefersTo tls =
    add_tls-RefersTo "consul.pem" "consul-key.pem" tls _ (λ key file h. absurd (ground arith))

no_files_iff : (tls : TlsConfigPem) → ((tls_config tls).files ≡ []) ↔ (tls ≡ no_tls)
unfolding tls_config insert
no_files_iff tls = ground (arith, eq_iff tls.cert "", eq_iff tls.ca "", eq_iff tls.private_key "")

-- When `Files` succeeds, every file that the TLS configuration names (cert_file, key_file, ca_file)
-- is among the files, common.hcl is there, and tls.json is missing exactly when no TLS text is set.
pub consul_files-tls :
    (encode : Dict Json → Result String) (cc : ConsulConfig) (fs : Dict String)
    → files encode cc ≡ ok fs
    → RefersTo (tls_config cc.common.tls).cfg fs
      × (lookup "common.hcl" fs ≡ some common_hcl)
      × ((lookup "tls.json" fs ≡ none) ↔ (cc.common.tls ≡ no_tls))
unfolding files
consul_files-tls encode cc fs h =
    let (out, made, rest) = bind_ok (add_tls_json t.files (encode t.cfg)) _ h in
    let l = add_tls_json_lem t.cfg t.files out _ (tls_config-RefersTo tls) made in
    let e : fs ≡ insert "common.hcl" common_hcl out = ground arith in
    let common = lookup-insert "common.hcl" "common.hcl" common_hcl out in
    let json = lookup-insert "common.hcl" "tls.json" common_hcl out in
    let n = no_files_iff tls in
    rw e (
      RefersTo-insert "common.hcl" common_hcl t.cfg out l.0,
      ground (arith, common, eq_refl "common.hcl"),
      (λ m. n.0 (l.1.0 (ground (arith, json))), λ m. ground (arith, json, l.1.1 (n.1 m))),
    )
  where
    open cc.common use {tls}

    t : Tls
    t = tls_config tls
