-- ===== src/Clusters/Combined/ConsulVault.antt =====
-- cluster/cluster.go: `NewConsulVaultCluster` and what its `Stop` leaves running.
use yurt.Prelude.{
  ◌≡◌, refl, ◌∙◌, ap, sym, ℕ, zero, suc, ◌+◌, String, ◌<>◌, Bool, List, [], ◌∷◌, ◌++◌, Option, some,
  arith, length, length-append,
}
use yurt.Effects.{ok}
use yurt.Clusters.Vault.Replacing.{stop_servers}
use mathlib.Core.Path.{subst₂}
use yurt.Effects.Calls.{◌>>=◌, pure, Exec, bind-eq-ok}
use yurt.Commands.Vault.{Seal}
use yurt.Clusters.{World, Event, Harness, note, watch, cluster_tls}
use yurt.Clusters
use yurt.Clusters.Consul.{ConsulCluster, client_agent}
use yurt.Clusters.Consul.Allocating.{started, stopped, Quiet}
use yurt.Clusters.Consul.Started.{newest_first, newest_first-append, new_consul_cluster_ok}
use yurt.Clusters.Nomad.{stop_each, ask_endpoint}
use yurt.Clusters.Vault.{VaultCluster, VaultWorld}
use yurt.Clusters.Vault.Creating.{no_servers}
use yurt.Clusters.Vault.Created.{Created, new_vault_cluster_ok}
use yurt.Clusters.Combined.{
  ConsulVaultCluster, stop_consul_vault, or_stop_cluster, with_consul_agent, start_agent,
  start_agents, stop_consul, new_consul_vault_cluster, new_vault_cluster, no_agents,
  new_consul_cluster,
}

client_agent-Quiet :
    (w : World) (has_ca : Bool) (c : ConsulCluster) (name : String) (h h' : List Event)
    (agent : Harness)
    → client_agent w has_ca c name h ≡ (ok agent, h')
    → Quiet h h'
unfolding client_agent cluster_tls
client_agent-Quiet w has_ca c name h h' agent e = (ground arith, ground arith)

-- One agent more, with its address.
start_agent_ok :
    (w : World) (has_ca : Bool) (c d : ConsulVaultCluster) (addrs more : List String)
    (h h' : List Event)
    → start_agent w has_ca c addrs h ≡ (ok (d, more), h')
    → (agent : Harness) × (addr : String) × (d ≡ with_consul_agent agent c)
      × (more ≡ addrs ++ (addr ∷ []))
      × (started h' ≡ agent ∷ started h)
      × (stopped h' ≡ stopped h)
unfolding start_agent stop_consul_vault
start_agent_ok w has_ca c d addrs more h h' e =
    let (agent, h1, e1, r1) =
      bind-eq-ok (client_agent w has_ca c.consul (c.name <> "-consul-cli")) _ h e in
    let quiet = client_agent-Quiet w has_ca c.consul (c.name <> "-consul-cli") h h1 agent e1 in
    let (addr, h3, e3, r3) =
      bind-eq-ok (or_stop_cluster (with_consul_agent agent c) (ask_endpoint w agent))
        (λ (a : String). pure (with_consul_agent agent c, addrs ++ (a ∷ []))) (watch agent ∷ h1)
        r1 in
    (agent, addr, ground arith, ground arith, ground arith, ground arith)

-- What the loop adds.
record Agents (n : ℕ) (c d : ConsulVaultCluster) (addrs more : List String) (h h' : List Event)
    : Type 0 where
  agents : length d.consul_agents ≡ length c.consul_agents + n
  addresses : length more ≡ length addrs + n
  same_consul : d.consul ≡ c.consul
  in_order :
      (older : List Harness)
      → started h ≡ newest_first c.consul_agents older
      → started h' ≡ newest_first d.consul_agents older
  none_stopped : stopped h' ≡ stopped h

start_agents-Agents :
    (w : World) (has_ca : Bool) (n : ℕ) (c d : ConsulVaultCluster) (addrs more : List String)
    (h h' : List Event)
    → start_agents w has_ca n c addrs h ≡ (ok (d, more), h')
    → Agents n c d addrs more h h'
unfolding start_agents
start_agents-Agents w has_ca zero c d addrs more h h' e = record {
  agents = ground arith;
  addresses = ground arith;
  same_consul = ground arith;
  in_order = λ older p. ground arith;
  none_stopped = ground arith;
}
start_agents-Agents w has_ca (suc n) c d addrs more h h' e =
    let ((c1, addrs1), h1, e1, r1) =
      bind-eq-ok (start_agent w has_ca c addrs) (λ next. start_agents w has_ca n next.0 next.1) h
        e in
    let (agent, addr, cluster, addresses, new, quiet) =
      start_agent_ok w has_ca c c1 addrs addrs1 h h1 e1 in
    let later = start_agents-Agents w has_ca n c1 d addrs1 more h1 h' r1 in
    let one_agent : c1.consul_agents ≡ c.consul_agents ++ (agent ∷ []) =
      ap (λ (x : ConsulVaultCluster). x.consul_agents) cluster in
    record {
      agents =
          omega
            (arith, later.agents, ap length one_agent, length-append c.consul_agents (agent ∷ []));
      addresses =
          omega (arith, later.addresses, ap length addresses, length-append addrs (addr ∷ []));
      same_consul = later.same_consul ∙ ap (λ (x : ConsulVaultCluster). x.consul) cluster;
      in_order = λ older p. later.in_order older (
          new
          ∙ ap (λ (l : List Harness). agent ∷ l) p
          ∙ sym (newest_first-append c.consul_agents agent older)
          ∙ ap (λ (l : List Harness). newest_first l older) (sym one_agent));
      none_stopped = later.none_stopped ∙ quiet;
    }

stopped-stop_each :
    (l : List Harness) (h : List Event) → stopped (stop_each l h) ≡ newest_first l (stopped h)
unfolding stop_each
stopped-stop_each [] h = refl
stopped-stop_each (x ∷ l) h = stopped-stop_each l (Clusters.stop x ∷ h)

-- A Consul cluster, its agents and a Vault cluster of n servers each, in the order in which they
-- were started; stopping the cluster stops the Vault servers and then the Consul servers.
abbrev pub Combined :
    VaultWorld → ℕ → Option Seal → List Event → ConsulVaultCluster → List Event → Type 0
Combined w n seal h c h' =
    (v : VaultCluster) × (addrs : List String) × (h1 : List Event) × (c.vault ≡ some v)
    × (length c.consul.servers ≡ n)
    × (length c.consul_agents ≡ n)
    × (length addrs ≡ n)
    × (started h1 ≡ newest_first c.consul_agents (newest_first c.consul.servers (started h)))
    × Created w 0 n (no_servers addrs seal) h1 v h'
    × ((stop_consul_vault c h').0 ≡ ok tt)
    × (stopped (stop_consul_vault c h').1
        ≡ newest_first c.consul.servers (newest_first v.servers (stopped h)))

stop_consul_vault_lem :
    (c : ConsulVaultCluster) (v : VaultCluster) (h : List Event)
    → c.vault ≡ some v
    → ((stop_consul_vault c h).0 ≡ ok tt)
      × (stopped (stop_consul_vault c h).1
          ≡ newest_first c.consul.servers (newest_first v.servers (stopped h)))
unfolding stop_consul_vault stop_consul stop_servers
stop_consul_vault_lem c v h e = rw e (
  refl,
  stopped-stop_each c.consul.servers (stop_each v.servers h)
      ∙ ap (newest_first c.consul.servers) (stopped-stop_each v.servers h),
)

abbrev with_vault_of : ConsulVaultCluster → VaultCluster → ConsulVaultCluster
with_vault_of c v = record c { vault = some v }

-- When a Consul and a Vault cluster of n servers each are made together, there are n Consul servers,
-- n Consul agents and n addresses of agents, which were given to the Vault cluster; the Consul
-- servers, the agents and the Vault servers were started in this order; and stopping the whole
-- succeeds and stops exactly the Vault servers, then the Consul servers.
pub new_consul_vault_cluster_ok :
    (w : VaultWorld) (has_ca : Bool) (name : String) (n : ℕ) (seal : Option Seal)
    (h h' : List Event) (c : ConsulVaultCluster)
    → new_consul_vault_cluster w has_ca name n seal h ≡ (ok c, h')
    → Combined w n seal h c h'
unfolding new_consul_vault_cluster
new_consul_vault_cluster_ok w has_ca name n seal h h' c e =
    let (consul, h1, e1, r1) =
      bind-eq-ok (new_consul_cluster w.world has_ca name n) with_consul h e in
    let (agents, h2, e2, r2) =
      bind-eq-ok (start_agents w.world has_ca n (no_agents name consul) []) with_agents h1 r1 in
    let (v, h3, e3, r3) =
      bind-eq-ok (new_vault_cluster w has_ca name n agents.1 seal 0) (with_vault agents.0) h2 r2 in
    let (many, _, _, consul_order, consul_quiet, _) =
      new_consul_cluster_ok w.world has_ca name n h h1 consul e1 in
    let a =
      start_agents-Agents w.world has_ca n (no_agents name consul) agents.0 [] agents.1 h1 h2 e2 in
    let made = new_vault_cluster_ok w has_ca name n agents.1 seal 0 h2 h3 v e3 in
    let same : c ≡ with_vault_of agents.0 v = ground arith in
    let last : h3 ≡ h' = ground arith in
    let order : started h2
        ≡ newest_first agents.0.consul_agents (newest_first consul.servers (started h)) =
      a.in_order (newest_first consul.servers (started h)) consul_order in
    let quiet : stopped h3 ≡ stopped h = made.none_stopped ∙ a.none_stopped ∙ consul_quiet in
    let (done, stops) = stop_consul_vault_lem (with_vault_of agents.0 v) v h3 refl in
    subst₂ (λ (x : ConsulVaultCluster) (t : List Event). Combined w n seal h x t) (sym same) last
      (
        v,
        agents.1,
        h2,
        refl,
        ap (λ (x : ConsulCluster). length x.servers) a.same_consul ∙ many,
        a.agents ∙ omega arith,
        a.addresses ∙ omega arith,
        order
            ∙ ap
                (λ (x : ConsulCluster).
                  newest_first agents.0.consul_agents (newest_first x.servers (started h)))
                (sym a.same_consul),
        made,
        done,
        stops
            ∙ ap
                (λ (l : List Harness).
                  newest_first agents.0.consul.servers (newest_first v.servers l))
                quiet,
      )
  where
    with_vault : ConsulVaultCluster → VaultCluster → Exec Event ConsulVaultCluster
    with_vault c v = pure (with_vault_of c v)

    with_agents : ConsulVaultCluster × List String → Exec Event ConsulVaultCluster
    with_agents agents = new_vault_cluster w has_ca name n agents.1 seal 0 >>= with_vault agents.0

    with_consul : ConsulCluster → Exec Event ConsulVaultCluster
    with_consul consul = start_agents w.world has_ca n (no_agents name consul) [] >>= with_agents
