-- ===== src/Binaries.antt =====
-- binaries/binaries.go: where the programs that are run come from.
pub mod Trees
pub mod Fetching
pub mod LocalBuild
use yurt.Prelude.{
  String, ◌<>◌, List, [], ◌∷◌, Dict, lookup, Option, none, some, str_eq, if◌then◌else◌,
}

-- The two pairs of URL templates.
pub data UrlHelper : Type 0 where
  hashicorp prometheus : UrlHelper

pub record RegistryEntry : Type 0 where
  pub name : String
  pub version : String
  pub source : UrlHelper

-- `registry`
unfoldable pub registry : Dict RegistryEntry
registry =
    ("nomad", record { name = "nomad"; version = "1.2.3"; source = hashicorp })
    ∷ ("consul", record { name = "consul"; version = "1.11.1"; source = hashicorp })
    ∷ ("vault", record { name = "vault"; version = "1.9.2"; source = hashicorp })
    ∷ ("prometheus", record { name = "prometheus"; version = "2.32.1"; source = prometheus })
    ∷ (
      "consul_exporter",
      record { name = "consul_exporter"; version = "0.7.1"; source = prometheus },
    )
    ∷ ("node_exporter", record { name = "node_exporter"; version = "1.3.1"; source = prometheus })
    ∷ []

-- The templates up to the name of the file.
abbrev pub url_base : UrlHelper → String → String → String
url_base hashicorp package_name version =
    "https://releases.hashicorp.com/" <> (package_name <> ("/" <> (version <> "/")))
url_base prometheus package_name version =
    "https://github.com/prometheus/"
    <> (package_name <> ("/releases/download/v" <> (version <> "/")))

-- The file of the archive; its parts have no slash, so that it is the `Base` of the URL's path.
abbrev pub archive : UrlHelper → String → String → String → String → String
archive hashicorp package_name version os arch =
    package_name <> ("_" <> (version <> ("_" <> (os <> ("_" <> (arch <> ".zip"))))))
archive prometheus package_name version os arch =
    package_name <> ("-" <> (version <> ("." <> (os <> ("-" <> (arch <> ".tar.gz"))))))

abbrev pub sums : UrlHelper → String → String → String
sums hashicorp package_name version = package_name <> ("_" <> (version <> "_SHA256SUMS"))
sums prometheus package_name version = "sha256sums.txt"

-- What the two templates give.
abbrev pub source_url : UrlHelper → String → String → String → String → String
source_url u package_name version os arch =
    url_base u package_name version <> archive u package_name version os arch

abbrev pub sum_url : UrlHelper → String → String → String
sum_url u package_name version = url_base u package_name version <> sums u package_name version

-- `if version == "" { version = o.version }`
abbrev pub version_or : String → RegistryEntry → String
version_or version entry = if str_eq version "" then entry.version else version
