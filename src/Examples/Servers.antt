-- ===== src/Examples/Servers.antt =====
-- vault/vault.go and prometheus/prometheus.go: servers.
use yurt.Prelude.{◌≡◌, ◌≢◌, refl, none, some, [], ◌∷◌, true, false, arith, eq_iff, All}
use yurt.Types.{TlsConfigPem}
use yurt.Runner.{is_positive}
use yurt.Commands.Vault
use yurt.Commands.Vault.{VaultConfig, files, config_hcl}
use yurt.Commands.Prometheus
use yurt.Commands.Prometheus.{ScrapeConfig, PrometheusConfig, prometheus_config, bare_job}
use yurt.Commands.Prometheus.Jobs.{prometheus_config-IsSecured, IsSecured, has_targets}

abbrev tls : TlsConfigPem
tls = record { ca = "ca"; cert = "certificate"; private_key = "key" }

abbrev on_consul : VaultConfig
on_consul = Vault.new_consul_config "127.0.0.1:8500" "vault/" (some tls)

consul_addr_set : on_consul.consul_addr ≢ ""
unfolding Vault.new_consul_config
consul_addr_set e = ground (arith, e, eq_iff "127.0.0.1:8500" "")

abbrev on_raft : VaultConfig
on_raft = Vault.new_raft_config [] none 0

no_consul_addr : on_raft.consul_addr ≡ ""
unfolding Vault.new_raft_config
no_consul_addr = refl

zero_multiplier : is_positive 0 ≡ false
zero_multiplier = refl

abbrev scraper : PrometheusConfig
scraper = Prometheus.new_config (("consul", bare_job "consul") ∷ []) (some tls)

has_ca : scraper.common.tls.ca ≢ ""
unfolding Prometheus.new_config
has_ca e = ground (arith, e, eq_iff "ca" "")

prometheus_config-IsSecured_example :
    All
      (λ c. IsSecured scraper.common.tls.ca c × (has_targets c ≡ true))
      (prometheus_config scraper).scrape_configs
prometheus_config-IsSecured_example = prometheus_config-IsSecured scraper has_ca
