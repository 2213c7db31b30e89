-- ===== src/Clusters/Vault/Created.antt =====
-- cluster/cluster.go: what a successful `NewVaultCluster` has made.
use yurt.Prelude.{
  ◌≡◌, ◌∙◌, ap, sym, ℕ, zero, suc, ◌+◌, String, Bool, true, ◌&&◌, List, [], ◌∷◌, arith, length, map,
  ◌-◌, Option, refl,
}
use mathlib.Core.Path.{subst, subst₂}
use yurt.Effects.{Result, ok, err}
use yurt.Effects.Methods.{bind-eq-ok}
use yurt.Types.{Node}
use yurt.Commands.Command.{Command}
use yurt.Clusters.{Event, Harness, Seal}
use yurt.Clusters
use yurt.Clusters.Consul.Allocating.{started, stopped}
use yurt.Clusters.Consul.Started.{newest_first}
use yurt.Clusters.Vault.{VaultCluster, VaultWorld, alloc_nodes, join, nth, SealStatus}
use yurt.Clusters.Vault.Addresses.{Kept, Addressed, alloc_nodes-Addressed}
use yurt.Clusters.Vault.Joining.{Group, joined, yield, join_rest, wait_all}
use yurt.Clusters.Vault.Creating.{
  join_others, several, is_empty, ask_autopilot, check, create, initialize_first, unseal_first,
  new_vault_cluster, or_stop, with_nodes, no_servers,
}
use yurt.Clusters.Vault.Quiet.{State, ending_Same, alloc_nodes-IsQuiet, Same}
use yurt.Clusters.Vault.Idle.{
  runs, ending_Idle, yield-IsIdle, wait_all-IsIdle, initialize_first-IsIdle, unseal_first-IsIdle,
  check-IsIdle, Idle,
}
use yurt.Clusters.Vault.Running.{Runs, Runs-same}
use yurt.Clusters.Vault.Progress.{Progress, Idle-Progress, join-Progress, start-Progress}

join_rest-Progress :
    (w : VaultWorld) (nodes : List Node) (has_ca : Bool) (multiplier rounds i n : ℕ) (b : State)
    (g g' : Group) (s s' : State)
    → join_rest w nodes has_ca multiplier rounds i g s ≡ (ok g', s')
    → i + rounds ≡ n
    → Progress nodes multiplier b i s
    → Progress nodes multiplier b n s'
unfolding join_rest
join_rest-Progress w nodes has_ca multiplier zero i n b g g' s s' e all p =
    subst₂ (λ (k : ℕ) (t : State). Progress nodes multiplier b k t) (omega (arith, all))
      (ap (λ (q : Result Group × State). q.1) e) p
join_rest-Progress w nodes has_ca multiplier (suc rounds) i n b g g' s s' e all p =
    let (server, s1, e1, r1) = bind-eq-ok (join w nodes has_ca multiplier i) _ s e in
    let (g1, s2, e2, r2) =
      bind-eq-ok (yield w (joined i g server)) (join_rest w nodes has_ca multiplier rounds (i + 1))
        s1 r1 in
    let next : suc i ≡ i + 1 = omega arith in
    let one =
      subst (λ (k : ℕ). Progress nodes multiplier b k s1) next
        (join-Progress w nodes has_ca multiplier b i server s s1 e1 p) in
    let idle =
      ending_Idle (yield w (joined i g server)) s1 s2 (ok g1) (yield-IsIdle w (joined i g server))
        e2 in
    join_rest-Progress w nodes has_ca multiplier rounds (i + 1) n b g1 g' s2 s' r2
      (omega (arith, all)) (Idle-Progress nodes multiplier b (i + 1) s1 s2 idle one)

join_others-Progress :
    (w : VaultWorld) (nodes : List Node) (has_ca : Bool) (multiplier others : ℕ) (x : Harness)
    (b s s' : State)
    → join_others w nodes has_ca multiplier others x s ≡ (ok tt, s')
    → Progress nodes multiplier b 1 s
    → Progress nodes multiplier b (suc others) s'
unfolding join_others
join_others-Progress w nodes has_ca multiplier zero x b s s' e p =
    subst (λ (q : Result (Unit {0}) × State). Progress nodes multiplier b 1 q.1) e p
join_others-Progress w nodes has_ca multiplier (suc others) x b s s' e p =
    let (g, s1, e1, r1) =
      bind-eq-ok (join_rest w nodes has_ca multiplier (suc others) 1 _) (wait_all w) s e in
    let all =
      join_rest-Progress w nodes has_ca multiplier (suc others) 1 (suc (suc others)) b _ g s s1 e1
        (omega arith) p in
    Idle-Progress nodes multiplier b (suc (suc others)) s1 s'
      (ending_Idle (wait_all w g) s1 s' (ok tt) (wait_all-IsIdle w g) r1) all

-- The health check of all servers succeeded, and with integrated storage also that of autopilot.
abbrev pub Checked : VaultWorld → VaultCluster → Type 0
Checked w c =
    (h : List Event) × (w.healthy c.servers h ≡ ok tt)
    × ((several c.servers && is_empty c.consul_addrs) ≡ true
        → w.autopilot_healthy c.servers c.root_token (Clusters.vault_healthy c.servers ∷ h) ≡ ok tt)

check_ok : (w : VaultWorld) (s s' : State) → check w s ≡ (ok tt, s') → (s'.0 ≡ s.0) × Checked w s.0
unfolding check ask_autopilot
check_ok w s s' e = (ground arith, (s.1, ground arith, λ p. ground arith))

-- What a Vault cluster of n servers is, made since the history `h`.
pub record Created (w : VaultWorld) (multiplier n : ℕ) (given : VaultCluster) (h : List Event)
    (c : VaultCluster) (h' : List Event) : Type 0 where
  pub kept : Kept given c
  pub all_nodes : length c.nodes ≡ n
  pub all_servers : length c.servers ≡ n
  pub addressed : Addressed c.nodes c
  pub in_order : started h' ≡ newest_first c.servers (started h)
  pub none_stopped : stopped h' ≡ stopped h
  pub ran : Runs c multiplier c.nodes (runs h) n (runs h')
  pub checked : Checked w c

join_positive :
    (w : VaultWorld) (nodes : List Node) (has_ca : Bool) (multiplier : ℕ) (r : Harness × SealStatus)
    (s s' : State)
    → join w nodes has_ca multiplier 0 s ≡ (ok r, s')
    → suc (length nodes - 1) ≡ length nodes
unfolding join nth
join_positive w [] has_ca multiplier r s s' e = absurd (ground arith)
join_positive w (x ∷ nodes) has_ca multiplier r s s' e = omega arith

finish-Created :
    (w : VaultWorld) (nodes : List Node) (multiplier n : ℕ) (s s1 s5 s6 : State)
    → Same s s1
    → length nodes ≡ n
    → Addressed nodes s1.0
    → runs s1.1 ≡ runs s.1
    → Kept s.0 s1.0
    → Progress nodes multiplier s1 n s5
    → Idle s5 s6
    → s6.0 ≡ s5.0
    → Checked w s5.0
    → Created w multiplier n s.0 s.1 (with_nodes nodes s6.0) s6.1
finish-Created w nodes multiplier n s s1 s5 s6 quiet many addressed ran kept p5 idle unchanged
      checked =
    record {
      kept = (p6.settings.1 ∙ kept.0, p6.settings.2 ∙ kept.1, p6.settings.3 ∙ kept.2);
      all_nodes = many;
      all_servers = p6.count;
      addressed = ap (map (λ (a : String). ok a)) p6.settings.0 ∙ addressed;
      in_order = p6.in_order ∙ ap (newest_first s6.0.servers) quiet.1;
      none_stopped = p6.none_stopped ∙ quiet.2;
      ran =
          subst
            (λ (r : List (Command × Node)).
              Runs (with_nodes nodes s6.0) multiplier nodes r n (runs s6.1))
            ran (Runs-same p6.settings p6.ran);
      checked = subst (λ (c : VaultCluster). Checked w c) (sym unchanged) checked;
    }
  where
    p6 : Progress nodes multiplier s1 n s6
    p6 = Idle-Progress nodes multiplier s1 n s5 s6 idle p5

create-Created :
    (w : VaultWorld) (has_ca : Bool) (name : String) (n multiplier : ℕ) (s s' : State)
    → create w has_ca name n multiplier s ≡ (ok tt, s')
    → s.0.servers ≡ []
    → s.0.join_addrs ≡ []
    → Created w multiplier n s.0 s.1 s'.0 s'.1
unfolding create
create-Created w has_ca name n multiplier s s' e none_yet no_addrs =
    let (nodes, s1, e1, r1) = bind-eq-ok (alloc_nodes w name n []) _ s e in
    let (first, s2, e2, r2) = bind-eq-ok (join w nodes has_ca multiplier 0) _ s1 r1 in
    let (_, s3, e3, r3) = bind-eq-ok (initialize_first w first) _ s2 r2 in
    let (_, s4, e4, r4) = bind-eq-ok (unseal_first w first) _ s3 r3 in
    let (_, s5, e5, r5) =
      bind-eq-ok (join_others w nodes has_ca multiplier (n - 1) first.0) _ s4 r4 in
    let (_, s6, e6, r6) = bind-eq-ok (check w) _ s5 r5 in
    let (many, addressed, ran, kept) =
      alloc_nodes-Addressed w name n [] nodes s s1 e1 (ap (map (λ (a : String). ok a)) no_addrs) in
    let quiet = ending_Same _ s s1 _ (alloc_nodes-IsQuiet w name n []) e1 in
    let p1 =
      join-Progress w nodes has_ca multiplier s1 0 first s1 s2 e2
        (start-Progress nodes multiplier s1 (quiet.0 ∙ none_yet)) in
    let p3 =
      Idle-Progress nodes multiplier s1 1 s2 s3
        (ending_Idle (initialize_first w first) s2 s3 _ (initialize_first-IsIdle w first) e3) p1 in
    let p4 =
      Idle-Progress nodes multiplier s1 1 s3 s4
        (ending_Idle (unseal_first w first) s3 s4 _ (unseal_first-IsIdle w first) e4) p3 in
    let p5 = join_others-Progress w nodes has_ca multiplier (n - 1) first.0 s1 s4 s5 e5 p4 in
    let checked = check_ok w s5 s6 e6 in
    let all : suc (n - 1) ≡ n =
      omega (arith, many, join_positive w nodes has_ca multiplier first s1 s2 e2) in
    let made =
      finish-Created w nodes multiplier n s s1 s5 s6 quiet (omega (arith, many)) addressed ran kept
        (subst (λ (k : ℕ). Progress nodes multiplier s1 k s5) all p5)
        (ending_Idle (check w) s5 s6 _ (check-IsIdle w) e6) checked.0 checked.1 in
    subst (λ (q : Result (Unit {0}) × State). Created w multiplier n s.0 s.1 q.1.0 q.1.1) r6 made

or_stop_ok :
    (r : Result (Unit {0}) × State) (c : VaultCluster) (h' : List Event)
    → or_stop r ≡ (ok c, h')
    → r ≡ (ok tt, (c, h'))
unfolding or_stop
or_stop_ok (ok x, s) c h' e = ground arith
or_stop_ok (err x, s) c h' e = absurd (ground arith)

-- When a Vault cluster of n servers is made, it has the Consul addresses and the seal that were
-- given, n nodes and n servers; its addresses to join are
-- those of the nodes; the servers are exactly what was started, in order, none of them stopped, and
-- each was run on its own node with the configuration for all the addresses or for its own Consul
-- agent; and the health check of all servers succeeded, with integrated storage and several servers
-- also that of autopilot.
pub new_vault_cluster_ok :
    (w : VaultWorld) (has_ca : Bool) (name : String) (n : ℕ) (addrs : List String)
    (seal : Option Seal) (multiplier : ℕ) (h h' : List Event) (c : VaultCluster)
    → new_vault_cluster w has_ca name n addrs seal multiplier h ≡ (ok c, h')
    → Created w multiplier n (no_servers addrs seal) h c h'
unfolding new_vault_cluster
new_vault_cluster_ok w has_ca name n addrs seal multiplier h h' c e =
    create-Created w has_ca name n multiplier (no_servers addrs seal, h) (c, h')
      (or_stop_ok (create w has_ca name n multiplier (no_servers addrs seal, h)) c h' e) refl refl
