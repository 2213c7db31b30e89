-- ===== src/Clusters.antt =====
-- cluster/cluster.go and cluster/dockeryurt.go: clusters in an environment.
pub mod Consul
pub mod Nomad
pub mod Vault
pub mod Combined
pub mod YurtRun
use yurt.Prelude.{ℕ, String, Bool, true, false, List, Option, none, some, ◌≡◌, ◌∷◌}
use yurt.Effects.{Result, ok, err}
use yurt.Effects.Calls.{Exec, pure, call, ◌>>=◌}
use yurt.Types.{Ports, Node, TlsConfigPem}
use yurt.Commands.Command.{Command}
use yurt.Commands.Vault.{Seal}

-- The harness of a process or a container, by the number of its start.
abbrev pub Harness : Type 0
Harness = ℕ

-- What a certificate is for.
pub data Use : Type 0 where
  consul nomad vault : Use

pub data Event : Type 0 where
  alloc_node : String → Ports → Event
  server_tls : Use → Event
  run : Command → Node → Event
  -- `group.Go(h.Wait)`
  watch : Harness → Event
  stop : Harness → Event
  endpoint : Harness → Event
  consul_healthy : List Harness → List String → Event
  nomad_healthy : List Harness → List String → Event
  -- the functions of vault/vault.go, on the client of a server: `HarnessToAPI`, `Status`,
  -- `Initialize`, `Unseal`, `LeadersHealthy`, `Leader` and `RaftAutopilotHealthy`
  vault_client : Harness → Event
  vault_status : Harness → Event
  vault_initialize : Harness → Option Seal → Event
  vault_unseal : Harness → String → Bool → Event
  vault_healthy : List Harness → Event
  vault_leader : List Harness → Event
  autopilot_healthy : List Harness → String → Event
  step_down : Harness → Event

-- The environment, its harnesses and the certificate authority, by their answers. `endpoint` is the
-- host of `Endpoint("http", false)`; the health checks are `LeadersHealthy`.
pub record World : Type 0 where
  pub alloc_node : String → Ports → List Event → Result Node
  pub server_tls : Use → List Event → Result TlsConfigPem
  pub run : Command → Node → List Event → Result Harness
  pub endpoint : Harness → List Event → Result String
  pub consul_healthy : List Harness → List String → List Event → Result (Unit {0})
  pub nomad_healthy : List Harness → List String → List Event → Result (Unit {0})

-- An event whose answer is not looked at.
abbrev pub note : Event → Exec Event (Unit {0})
note e = call e (λ h. ok tt)

-- `if ca != nil { tls, err = ca.….ServerTLS(ctx, "", "1h") }`
unfoldable pub cluster_tls : World → Bool → Use → Exec Event (Option TlsConfigPem)
cluster_tls w has_ca purpose h = elim has_ca [
  | false ↦ (ok none, h)
  | true ↦ elim (w.server_tls purpose h) [
    | err e ↦ (err e, server_tls purpose ∷ h)
    | ok tls ↦ (ok (some tls), server_tls purpose ∷ h)
  ]
]
