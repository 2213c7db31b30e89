-- ===== src/Commands/Command.antt =====
-- The interface `runner.Command`, and its four implementations.
use yurt.Prelude.{String, List, [], Dict, ◌≡◌, refl}
use yurt.Effects.{Result, ok}
use yurt.Runner.{Config}
use yurt.Commands.Files.{Json}
use yurt.Commands.Consul
use yurt.Commands.Consul.{ConsulConfig}
use yurt.Commands.Nomad
use yurt.Commands.Nomad.{NomadConfig}
use yurt.Commands.Vault
use yurt.Commands.Vault.{VaultConfig}
use yurt.Commands.Prometheus
use yurt.Commands.Prometheus.{PrometheusConfig, Encoded}

pub data Command : Type 0 where
  consul : ConsulConfig → Command
  nomad : NomadConfig → Command
  vault : VaultConfig → Command
  prometheus : PrometheusConfig → Command

-- The encoders that the commands call.
pub record Encoders : Type 0 where
  pub consul_json : Dict Json → Result String
  pub nomad_json : Dict (Dict Json) → Result String
  pub yaml : Encoded → Result String

abbrev pub name : Command → String
name (consul c) = "consul"
name (nomad c) = "nomad"
name (vault c) = "vault"
name (prometheus c) = "prometheus"

abbrev pub config : Command → Config
config (consul c) = c.common
config (nomad c) = c.common
config (vault c) = c.common
config (prometheus c) = c.common

abbrev pub with_config : Command → Config → Command
with_config (consul c) cfg = consul (Consul.with_config c cfg)
with_config (nomad c) cfg = nomad (Nomad.with_config c cfg)
with_config (vault c) cfg = vault (Vault.with_config c cfg)
with_config (prometheus c) cfg = prometheus (Prometheus.with_config c cfg)

abbrev pub args : Command → List String
args (consul c) = Consul.args c
args (nomad c) = Nomad.args c
args (vault c) = Vault.args c
args (prometheus c) = Prometheus.args c

abbrev pub env : Command → List String
env (consul c) = Consul.env
env (nomad c) = []
env (vault c) = []
env (prometheus c) = []

abbrev pub files : Encoders → Command → Result (Dict String)
files e (consul c) = Consul.files e.consul_json c
files e (nomad c) = Nomad.files e.nomad_json c
files e (vault c) = ok (Vault.files c)
files e (prometheus c) = Prometheus.files e.yaml c

-- `WithConfig` sets what `Config` returns.
pub config-with_config : (c : Command) (cfg : Config) → config (with_config c cfg) ≡ cfg
config-with_config (consul c) cfg = refl
config-with_config (nomad c) cfg = refl
config-with_config (vault c) cfg = refl
config-with_config (prometheus c) cfg = refl
