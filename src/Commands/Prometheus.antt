-- ===== src/Commands/Prometheus.antt =====
-- prometheus/prometheus.go: the ports, the arguments and the files of a Prometheus server.
pub mod Jobs
pub mod Health
use yurt.Prelude.{ℕ, String, ◌<>◌, Bool, true, false, List, [], ◌∷◌, Option, none, some, ◌*◌}
use yurt.Prelude.{Dict, insert, show_int, str_eq, if◌then◌else◌}
use yurt.Effects.{Result, ok, err, ◌>>=◌}
use yurt.Types.{Port, Ports, TlsConfigPem, port_of, tcp_only}
use yurt.Runner.{Config, SockAddr, bare_config}
use yurt.Commands.Files.{tls_or_empty}

pub record PrometheusPorts : Type 0 where
  pub http : ℕ

unfoldable pub def_ports : PrometheusPorts
def_ports = record { http = 9090 }

unfoldable pub runner_ports : PrometheusPorts → Ports
runner_ports c = record {
  kind = "prometheus";
  name_order = "http" ∷ [];
  by_name = ("http", record { number = c.http; type = tcp_only }) ∷ [];
}

pub record ConsulDiscovery : Type 0 where
  pub server : String
  pub services : List String

-- `refresh_interval` is a duration in nanoseconds, or nil.
pub record FileDiscovery : Type 0 where
  pub file_patterns : List String
  pub refresh_interval : Option ℕ

pub data Action : Type 0 where
  unset replace keep drop hash_mod label_map label_drop label_keep : Action

pub record RelabelConfig : Type 0 where
  pub source_labels : List String
  pub separator : String
  pub regex : String
  pub modulus : ℕ
  pub target_label : String
  pub replacement : String
  pub action : Action

-- Of the HTTP client's configuration the program sets only the CA file.
pub record ScrapeConfig : Type 0 where
  pub job_name : String
  pub honor_labels : Bool
  pub honor_timestamps : Bool
  pub params : Dict (List String)
  pub scrape_interval : ℕ
  pub scrape_timeout : ℕ
  pub metrics_path : String
  pub scheme : String
  pub sample_limit : ℕ
  pub target_limit : ℕ
  pub consul_discovery : List ConsulDiscovery
  pub file_discovery : List FileDiscovery
  pub ca_file : String
  pub relabel_configs : List RelabelConfig
  pub metric_relabel_configs : List RelabelConfig

-- `ScrapeConfig{JobName: name}`
abbrev pub bare_job : String → ScrapeConfig
bare_job name = record {
  job_name = name;
  honor_labels = false;
  honor_timestamps = false;
  params = [];
  scrape_interval = 0;
  scrape_timeout = 0;
  metrics_path = "";
  scheme = "";
  sample_limit = 0;
  target_limit = 0;
  consul_discovery = [];
  file_discovery = [];
  ca_file = "";
  relabel_configs = [];
  metric_relabel_configs = [];
}

-- `Config`
pub record PrometheusConfig : Type 0 where
  pub common : Config
  pub jobs : Dict ScrapeConfig

-- What is encoded as YAML: the global interval, and the jobs in the order of the `range`.
pub record Encoded : Type 0 where
  pub scrape_interval : ℕ
  pub scrape_configs : List ScrapeConfig

-- `for name, job := range jobs { c.Jobs[name] = job }`
copy_jobs : Dict ScrapeConfig → Dict ScrapeConfig → Dict ScrapeConfig
copy_jobs [] m = m
copy_jobs ((name, job) ∷ jobs) m = copy_jobs jobs (insert name job m)

-- `NewConfig`
unfoldable pub new_config : Dict ScrapeConfig → Option TlsConfigPem → PrometheusConfig
unfolding def_ports runner_ports copy_jobs
new_config jobs tls = record {
  common = bare_config (runner_ports def_ports) (tls_or_empty tls);
  jobs = copy_jobs jobs [];
}

-- `WithConfig`
abbrev pub with_config : PrometheusConfig → Config → PrometheusConfig
with_config cc cfg = record cc { common = cfg }

listen_host : Option SockAddr → String
listen_host none = "127.0.0.1"
listen_host (some network) = "0.0.0.0"

-- `Args`
unfoldable pub args : PrometheusConfig → List String
unfolding listen_host
args cc =
    ("--storage.tsdb.path=" <> cc.common.data_dir)
    ∷ ("--config.file=" <> (cc.common.config_dir <> "/prometheus.yml"))
    ∷ ("--web.listen-address="
        <> (listen_host cc.common.network_config.network
            <> (":" <> show_int (port_of cc.common.ports "http").number)))
    ∷ []

abbrev pub second : ℕ
second = 1000000000

-- `job.HTTPClientConfig.TLSConfig = …; job.Scheme = "https"` when a CA is set
abbrev secured : String → ScrapeConfig → ScrapeConfig
secured ca job = if str_eq ca "" then job else record job { ca_file = ca; scheme = "https" }

-- `job.FileServiceDiscoveryConfigs = …` when no Consul server is asked
abbrev discovered : String → ScrapeConfig → ScrapeConfig
discovered name job = elim job.consul_discovery [
  | [] ↦ record job {
    file_discovery =
        record { file_patterns = (name <> ".*.json") ∷ []; refresh_interval = some second } ∷ [];
  }
  | d ∷ ds ↦ job
]

-- The body of the loop over the jobs.
unfoldable pub finish_job : String → String → ScrapeConfig → ScrapeConfig
finish_job ca name job = discovered name (secured ca job)

finish_jobs : String → Dict ScrapeConfig → List ScrapeConfig
finish_jobs ca [] = []
finish_jobs ca ((name, job) ∷ jobs) = finish_job ca name job ∷ finish_jobs ca jobs

-- `cc.Jobs["prometheus"] = …`: the map is shared, so that the caller's configuration has the job too.
abbrev pub with_own_job : Dict ScrapeConfig → Dict ScrapeConfig
with_own_job jobs = insert "prometheus" (bare_job "prometheus") jobs

-- What `Files` hands to the YAML encoder.
unfoldable pub prometheus_config : PrometheusConfig → Encoded
unfolding finish_jobs
prometheus_config cc = record {
  scrape_interval = 5 * second;
  scrape_configs = finish_jobs cc.common.tls.ca (with_own_job cc.jobs);
}

-- The JSON text of the server's own target.
abbrev pub local_json : Config → String
local_json c =
    "[{\"targets\":[\"127.0.0.1:" <> (show_int (port_of c.ports "http").number <> "\"]}]")

-- `Files`; `encode` is `yaml.Marshal`, and an error of it ends the process.
unfoldable pub files : (Encoded → Result String) → PrometheusConfig → Result (Dict String)
unfolding prometheus_config
files encode cc = do
  let with_ca = if str_eq cc.common.tls.ca "" then [] else insert "ca.pem" cc.common.tls.ca []
  let with_local = insert "prometheus.local.json" (local_json cc.common) with_ca
  yml ← encode (prometheus_config cc)
  ok (insert "prometheus.yml" yml with_local)
