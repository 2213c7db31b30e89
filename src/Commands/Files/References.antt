-- ===== src/Commands/Files/References.antt =====
-- Configurations that name files, built together with the files.
use yurt.Prelude.{
  [], String, ◌≡◌, some, Dict, lookup, insert, lookup-insert, eq_iff, arith, str_eq, Bool-cases,
  inl, inr, none, ◌↔◌, [], ◌∷◌, eq_refl, refl, false,
}
use yurt.Types.{TlsConfigPem}
use yurt.Commands.Files.{
  string, Tls, add_pem, add_tls, RefersTo, Json, add_tls_json, string, Result, ok, none, [],
}
use yurt.Effects.{Result, ok, err}

abbrev IsConsistent : Tls → Type 0
IsConsistent t = RefersTo t.cfg t.files

-- One more file takes none away.
keep_file :
    (file contents j : String) (files : Dict String)
    → ((c : String) × (lookup j files ≡ some c))
    → (c : String) × (lookup j (insert file contents files) ≡ some c)
keep_file file contents j files (c, e) = elim (Bool-cases (str_eq file j)) [
  | inl same ↦ (contents, ground (arith, lookup-insert file j contents files))
  | inr other ↦ (c, ground (arith, lookup-insert file j contents files))
]

pub RefersTo-insert :
    (file contents : String) (cfg : Dict Json) (files : Dict String)
    → RefersTo cfg files
    → RefersTo cfg (insert file contents files)
RefersTo-insert file contents cfg files h key f e = keep_file file contents f files (h key f e)

add_pem-IsConsistent :
    (contents file key : String) (t : Tls)
    → IsConsistent t
    → IsConsistent (add_pem contents file key t)
add_pem-IsConsistent contents file key t h = elim (Bool-cases (str_eq contents "")) [
  | inl same ↦ rw same h
  | inr full ↦ rw full (λ k f e. elim (Bool-cases (str_eq key k)) [
    | inl here ↦ (
      contents,
      ground (
        arith,
        lookup-insert key k (string file) t.cfg,
        lookup-insert file f contents t.files,
        eq_iff file f,
      ),
    )
    | inr there ↦
        keep_file file contents f t.files
          (h k f (ground (arith, lookup-insert key k (string file) t.cfg)))
  ])
]

pub add_tls-RefersTo :
    (cert_file key_file : String) (tls : TlsConfigPem) (t : Tls)
    → RefersTo t.cfg t.files
    → let t' = add_tls cert_file key_file tls t in RefersTo t'.cfg t'.files
add_tls-RefersTo cert_file key_file tls t h = add_pem-IsConsistent tls.ca "ca.pem" "ca_file" _ (
    add_pem-IsConsistent tls.private_key key_file "key_file" _
      (add_pem-IsConsistent tls.cert cert_file "cert_file" t h))

-- The file of the encoded configuration is there exactly when there are PEM files.
pub add_tls_json_lem :
    (cfg : Dict Json) (files out : Dict String) (bytes : Result String)
    → RefersTo cfg files
    → add_tls_json files bytes ≡ ok out
    → RefersTo cfg out × ((lookup "tls.json" out ≡ none) ↔ (files ≡ []))
unfolding add_tls_json lookup
add_tls_json_lem cfg [] out bytes h e =
    let e' : out ≡ [] = ground arith in rw e' (h, (λ _. refl, λ _. refl))
add_tls_json_lem cfg (f ∷ fs) out (err x) h e = absurd (ground arith)
add_tls_json_lem cfg (f ∷ fs) out (ok bytes) h e =
    let e' : out ≡ insert "tls.json" bytes (f ∷ fs) = ground arith in
    rw e' (
      RefersTo-insert "tls.json" bytes cfg (f ∷ fs) h,
      (
        λ n. absurd (
            ground (arith, lookup-insert "tls.json" "tls.json" bytes (f ∷ fs), eq_refl "tls.json")),
        λ n. absurd (ground arith),
      ),
    )

-- The other files stay.
pub lookup-add_tls_json :
    (j : String) (files out : Dict String) (bytes : Result String)
    → str_eq "tls.json" j ≡ false
    → add_tls_json files bytes ≡ ok out
    → lookup j out ≡ lookup j files
unfolding add_tls_json
lookup-add_tls_json j [] out bytes n e = ground arith
lookup-add_tls_json j (f ∷ fs) out (err x) n e = absurd (ground arith)
lookup-add_tls_json j (f ∷ fs) out (ok bytes) n e =
    ground (arith, lookup-insert "tls.json" j bytes (f ∷ fs))
