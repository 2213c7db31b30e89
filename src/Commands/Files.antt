-- ===== src/Commands/Files.antt =====
-- What the `Files` methods of the commands share: the PEM files of a TLS configuration, and the
-- values of the configuration that is encoded as JSON beside them.
pub mod References
use yurt.Prelude.{String, Bool, Option, none, some, lookup, ◌≡◌, ◌≢◌, ◌∷◌, []}
use yurt.Prelude.{Dict, insert, str_eq, if◌then◌else◌}
use yurt.Effects.{Result, ok, err}
use yurt.Types.{TlsConfigPem, no_tls}

pub data Json : Type 0 where
  bool : Bool → Json
  string : String → Json

-- The files so far, and the TLS configuration so far.
pub record Tls : Type 0 where
  pub files : Dict String
  pub cfg : Dict Json

-- `if contents != "" { files[file] = contents; tlsCfg[key] = file }`
abbrev pub add_pem : String → String → String → Tls → Tls
add_pem contents file key t =
    if str_eq contents ""
    then t
    else record { files = insert file contents t.files; cfg = insert key (string file) t.cfg }

-- The three tests, with the names of the certificate's file and of the key's file.
abbrev pub add_tls : String → String → TlsConfigPem → Tls → Tls
add_tls cert_file key_file tls t =
    add_pem tls.ca "ca.pem" "ca_file"
      (add_pem tls.private_key key_file "key_file" (add_pem tls.cert cert_file "cert_file" t))

-- `if len(files) > 0 { …; files["tls.json"] = string(tlsCfgBytes) }`, with what the encoder gave
unfoldable pub add_tls_json : Dict String → Result String → Result (Dict String)
add_tls_json [] bytes = ok []
add_tls_json (f ∷ fs) (err e) = err e
add_tls_json (f ∷ fs) (ok bytes) = ok (insert "tls.json" bytes (f ∷ fs))

-- `if tls != nil { t = *tls }`
abbrev pub tls_or_empty : Option TlsConfigPem → TlsConfigPem
tls_or_empty none = no_tls
tls_or_empty (some t) = t

-- Every file that a configuration names is there.
abbrev pub RefersTo : Dict Json → Dict String → Type 0
RefersTo cfg files =
    (key file : String)
    → lookup key cfg ≡ some (string file)
    → (contents : String) × (lookup file files ≡ some contents)
