-- ===== src/Commands/Prometheus/Jobs.antt =====
-- The jobs of the encoded configuration, and the files that they read their targets from.
use yurt.Prelude.{
  String, ◌≡◌, none, some, List, [], ◌∷◌, Dict, eq_iff, arith, str_eq, if◌then◌else◌, Option, Bool,
  ◌≢◌, true, All, false,
}
use yurt.Commands.Prometheus.{
  ScrapeConfig, finish_job, finish_jobs, prometheus_config, PrometheusConfig, with_own_job,
}

-- The job of a name among the entries of a map, by the encoded list.
abbrev pub encoded_job : String → Dict ScrapeConfig → List ScrapeConfig → Option ScrapeConfig
encoded_job name ((j, _) ∷ jobs) (c ∷ configs) =
    if str_eq j name then some c else encoded_job name jobs configs
encoded_job name _ _ = none

-- The job is scraped over HTTPS, with this text as the path of the CA file.
abbrev pub IsSecured : String → ScrapeConfig → Type 0
IsSecured ca c = (c.scheme ≡ "https") × (c.ca_file ≡ ca)

-- The job has targets: Consul servers to ask, or one pattern of files that are read each second.
abbrev pub has_targets : ScrapeConfig → Bool
has_targets c = elim c.consul_discovery [
  | d ∷ ds ↦ true
  | [] ↦ elim c.file_discovery [ [] ↦ false | f ∷ fs ↦ true ]
]

finish_jobs-All :
    (ca : String) (jobs : Dict ScrapeConfig)
    → ca ≢ ""
    → All (λ c. IsSecured ca c × (has_targets c ≡ true)) (finish_jobs ca jobs)
unfolding finish_jobs finish_job
finish_jobs-All ca [] n = tt
finish_jobs-All ca ((name, job) ∷ jobs) n =
    (ground (arith, eq_iff ca ""), finish_jobs-All ca jobs n)

-- With a CA, every encoded job has targets and uses HTTPS, and the path of its CA file is the text
-- of the CA itself.
pub prometheus_config-IsSecured :
    (cc : PrometheusConfig)
    → cc.common.tls.ca ≢ ""
    → All
        (λ c. IsSecured cc.common.tls.ca c × (has_targets c ≡ true))
        (prometheus_config cc).scrape_configs
unfolding prometheus_config
prometheus_config-IsSecured cc n = finish_jobs-All cc.common.tls.ca (with_own_job cc.jobs) n
