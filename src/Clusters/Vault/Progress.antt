-- ===== src/Clusters/Vault/Progress.antt =====
-- cluster/cluster.go, `NewVaultCluster`: the servers that have joined.
use yurt.Prelude.{
  ◌≡◌, refl, ◌∙◌, ap, sym, ℕ, suc, String, Bool, List, [], ◌∷◌, Option, arith, length,
  length-append,
}
use mathlib.Core.Path.{subst, subst₂}
use yurt.Effects.{ok}
use yurt.Effects.Methods.{lift, reading, calling, change, ◌>>=◌, ◌>>◌, bind-eq-ok}
use yurt.Types.{Node, TlsConfigPem}
use yurt.Sealing.{SealStatus}
use yurt.Commands.Command.{Command}
use yurt.Clusters.{Event, Harness, cluster_tls, note, watch}
use yurt.Clusters
use yurt.Clusters.Consul.Allocating.{started, stopped}
use yurt.Clusters.Consul.Started.{newest_first, newest_first-append}
use yurt.Clusters.Vault.{
  VaultCluster, VaultWorld, Vaults, nth, consul_addr_of, vault_config, start_vault, with_server,
  add_node, client_status, join,
}
use yurt.Clusters.Vault.Quiet.{State, start_vault-IsQuiet}
use yurt.Clusters.Vault.Running.{Runs, one_more, none_yet, vault_config-Configured, own_config-same}
use yurt.Clusters.Vault.Idle.{runs, SameSettings, Idle, ending_Idle, client_status-IsIdle}

start_vault_ok :
    (w : VaultWorld) (node : Node) (addr : String) (has_ca : Bool) (multiplier : ℕ) (y : Harness)
    (s s' : State)
    → start_vault w node addr has_ca multiplier s ≡ (ok y, s')
    → (tls : Option TlsConfigPem) × (s'.0 ≡ s.0)
      × (runs s'.1 ≡ (Command.vault (vault_config s.0 addr tls multiplier), node) ∷ runs s.1)
unfolding start_vault cluster_tls
start_vault_ok w node addr has_ca multiplier y s s' e =
    let (tls, s1, e1, r1) =
      bind-eq-ok (calling (cluster_tls w.world has_ca Clusters.vault)) _ s e in
    (tls, ground arith, ground arith)

-- One server more.
abbrev Added : VaultWorld → Node → String → ℕ → State → State → Type 0
Added w node addr multiplier s t =
    (y : Harness) × (tls : Option TlsConfigPem) × (t.0 ≡ with_server y s.0)
    × (started t.1 ≡ y ∷ started s.1)
    × (stopped t.1 ≡ stopped s.1)
    × (runs t.1 ≡ (Command.vault (vault_config s.0 addr tls multiplier), node) ∷ runs s.1)

add_node_ok :
    (w : VaultWorld) (node : Node) (addr : String) (has_ca : Bool) (multiplier : ℕ) (s s' : State)
    → add_node w node addr has_ca multiplier s ≡ (ok tt, s')
    → Added w node addr multiplier s s'
unfolding add_node
add_node_ok w node addr has_ca multiplier s s' e =
    let (y, s1, e1, r1) =
      bind-eq-ok (start_vault w node addr has_ca multiplier)
        (λ y. change (with_server y) >> calling (note (watch y))) s e in
    let (tls, same, ran) = start_vault_ok w node addr has_ca multiplier y s s1 e1 in
    let quiet = (start_vault-IsQuiet w node addr has_ca multiplier).same s in
    (y, tls, ground arith, ground arith, ground arith, ground arith)

-- What holds after i servers, since the state `b`.
pub record Progress (nodes : List Node) (multiplier : ℕ) (b : State) (i : ℕ) (s : State)
    : Type 0 where
  pub count : length s.0.servers ≡ i
  pub in_order : started s.1 ≡ newest_first s.0.servers (started b.1)
  pub none_stopped : stopped s.1 ≡ stopped b.1
  pub settings : SameSettings b.0 s.0
  pub ran : Runs b.0 multiplier nodes (runs b.1) i (runs s.1)

pub start-Progress :
    (nodes : List Node) (multiplier : ℕ) (b : State)
    → b.0.servers ≡ []
    → Progress nodes multiplier b 0 b
start-Progress nodes multiplier b e = record {
  count = ap (λ (l : List Harness). length l) e;
  in_order = ap (λ (l : List Harness). newest_first l (started b.1)) (sym e);
  none_stopped = refl;
  settings = (refl, refl, refl, refl);
  ran = none_yet;
}

pub Idle-Progress :
    (nodes : List Node) (multiplier : ℕ) (b : State) (i : ℕ) (s t : State)
    → Idle s t
    → Progress nodes multiplier b i s
    → Progress nodes multiplier b i t
Idle-Progress nodes multiplier b i s t (same, ran, settings) p = record {
  count = ap (λ (l : List Harness). length l) same.0 ∙ p.count;
  in_order =
      same.1 ∙ p.in_order ∙ ap (λ (l : List Harness). newest_first l (started b.1)) (sym same.0);
  none_stopped = same.2 ∙ p.none_stopped;
  settings = ground (arith, p.settings);
  ran = subst (Runs b.0 multiplier nodes (runs b.1) i) (sym ran) p.ran;
}

add-Progress :
    (w : VaultWorld) (nodes : List Node) (multiplier : ℕ) (b : State) (i : ℕ) (node : Node)
    (s t : State)
    → nth nodes i ≡ ok node
    → Added w node (consul_addr_of s.0.consul_addrs i) multiplier s t
    → Progress nodes multiplier b i s
    → Progress nodes multiplier b (suc i) t
add-Progress w nodes multiplier b i node s t found (y, tls, cluster, new, quiet, ran) p = record {
  count =
      ap (λ (c : VaultCluster). length c.servers) cluster
      ∙ length-append s.0.servers (y ∷ [])
      ∙ omega (arith, p.count);
  in_order =
      new
      ∙ ap (λ (l : List Harness). y ∷ l) p.in_order
      ∙ sym (newest_first-append s.0.servers y (started b.1))
      ∙ ap (λ (c : VaultCluster). newest_first c.servers (started b.1)) (sym cluster);
  none_stopped = quiet ∙ p.none_stopped;
  settings = ground (arith, p.settings);
  ran =
      subst (Runs b.0 multiplier nodes (runs b.1) (suc i)) (sym same_run)
        (one_more node _ found (vault_config-Configured b.0 multiplier i tls) p.ran);
}
  where
    same_run :
        runs t.1
        ≡ (
          Command.vault (vault_config b.0 (consul_addr_of b.0.consul_addrs i) tls multiplier),
          node,
        )
          ∷ runs s.1
    same_run =
        ran
        ∙ ap (λ x. (Command.vault x, node) ∷ runs s.1)
            (own_config-same b.0 s.0 i tls multiplier p.settings)

pub join-Progress :
    (w : VaultWorld) (nodes : List Node) (has_ca : Bool) (multiplier : ℕ) (b : State) (i : ℕ)
    (r : Harness × SealStatus) (s s' : State)
    → join w nodes has_ca multiplier i s ≡ (ok r, s')
    → Progress nodes multiplier b i s
    → Progress nodes multiplier b (suc i) s'
unfolding join
join-Progress w nodes has_ca multiplier b i r s s' e p =
    let (node, s1, e1, r1) = bind-eq-ok (lift (nth nodes i)) with_node s e in
    let (addrs, s2, e2, r2) =
      bind-eq-ok (reading (λ (c : VaultCluster). c.consul_addrs)) (with_addrs node) s1 r1 in
    let (_, s3, e3, r3) =
      bind-eq-ok (add_node w node (consul_addr_of addrs i) has_ca multiplier)
        (λ _. client_status w i) s2 r2 in
    let same1 : s1 ≡ s = ground arith in
    let found : nth nodes i ≡ ok node = ground arith in
    let same_addrs : addrs ≡ s.0.consul_addrs = ground arith in
    let same2 : s2 ≡ s = ground arith in
    let start =
      subst₂
        (λ (a : List String) (t : State).
          add_node w node (consul_addr_of a i) has_ca multiplier t ≡ (ok tt, s3))
        same_addrs same2 e3 in
    let added =
      add_node_ok w node (consul_addr_of s.0.consul_addrs i) has_ca multiplier s s3 start in
    let idle = ending_Idle (client_status w i) s3 s' (ok r) (client_status-IsIdle w i) r3 in
    Idle-Progress nodes multiplier b (suc i) s3 s' idle
      (add-Progress w nodes multiplier b i node s s3 found added p)
  where
    with_addrs : Node → List String → Vaults (Harness × SealStatus)
    with_addrs node addrs =
        add_node w node (consul_addr_of addrs i) has_ca multiplier >> client_status w i

    with_node : Node → Vaults (Harness × SealStatus)
    with_node node = reading (λ (c : VaultCluster). c.consul_addrs) >>= with_addrs node
