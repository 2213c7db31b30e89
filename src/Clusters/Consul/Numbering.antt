-- ===== src/Clusters/Consul/Numbering.antt =====
-- cluster/cluster.go with runenv/runenv.go: a Consul cluster in an `ExecEnv`, whose counters give the
-- nodes.
use yurt.Prelude.{
  ℕ, zero, suc, ◌+◌, ◌<◌, ◌≡◌, refl, String, ◌<>◌, Bool, List, [], ◌∷◌, ◌++◌, arith, ◌∙◌, ap, sym,
  int32_half, ◌*◌,
}
use mathlib.Core.List.{append-nil, append_assoc}
use yurt.Effects.{ok}
use yurt.Effects.Calls.{bind-eq-ok, lift}
use yurt.Types.{Node, address}
use yurt.Types.Sequential.{count_up}
use yurt.Runenv.Counters.{ExecCounters, exec_alloc, exec_alloc_all, Request}
use yurt.Runenv.Distinctness.{all_numbers, ports_asked, exec_alloc_all-numbers, OrdersDistinct}
use yurt.Clusters.{World, Event, cluster_tls}
use yurt.Clusters
use yurt.Clusters.Consul.{
  Allocated, ConsulCluster, ask_node, alloc_one, alloc_nodes, start_one, start_servers, run_node,
  server_command, new_consul_cluster, no_nodes, no_servers, check, consul_ports, runner_ports,
}
use yurt.Clusters.Consul.Started.{newest_first, check_ok}

-- The counters of an `ExecEnv` after the allocations of a history.
abbrev pub counters_after : ExecCounters → List Event → ExecCounters
counters_after c [] = c
counters_after c (Clusters.alloc_node base_name ports ∷ h) =
    (exec_alloc (counters_after c h) base_name ports).1
counters_after c (_ ∷ h) = counters_after c h

-- A world whose environment is an `ExecEnv`.
abbrev pub in_exec_env : World → ExecCounters → World
in_exec_env w c = record w {
  alloc_node = λ base_name ports h. ok (exec_alloc (counters_after c h) base_name ports).0;
}

-- The nodes on which something was run, the newest first.
abbrev pub ran_on : List Event → List Node
ran_on [] = []
ran_on (Clusters.run command node ∷ h) = node ∷ ran_on h
ran_on (_ ∷ h) = ran_on h

-- The requests of a cluster.
abbrev pub requests : String → ℕ → List Request
requests name zero = []
requests name (suc count) = (name <> "-consul-srv", consul_ports) ∷ requests name count

alloc_one_asked :
    (w : World) (name : String) (a b : Allocated) (h h' : List Event)
    → alloc_one w name a h ≡ (ok b, h')
    → (node : Node) × (w.alloc_node (name <> "-consul-srv") consul_ports h ≡ ok node)
      × (b.nodes ≡ a.nodes ++ (node ∷ []))
      × (h' ≡ Clusters.alloc_node (name <> "-consul-srv") consul_ports ∷ h)
unfolding alloc_one
alloc_one_asked w name a b h h' e =
    let (node, h1, e1, r1) = bind-eq-ok (ask_node w (name <> "-consul-srv")) _ h e in
    let (join_addr, h2, e2, r2) = bind-eq-ok (lift (address node "serf-lan")) _ h1 r1 in
    let (server_addr, h3, e3, r3) = bind-eq-ok (lift (address node "server")) _ h2 r2 in
    (node, ground arith, ground arith, ground arith)

module _ (w : World) (c : ExecCounters) where
  alloc_nodes-exec_alloc_all :
      (name : String) (count : ℕ) (a b : Allocated) (h h' : List Event)
      → alloc_nodes (in_exec_env w c) name count a h ≡ (ok b, h')
      → (b.nodes ≡ a.nodes ++ (exec_alloc_all (counters_after c h) (requests name count)).0)
        × (counters_after c h' ≡ (exec_alloc_all (counters_after c h) (requests name count)).1)
        × (ran_on h' ≡ ran_on h)
  unfolding alloc_nodes exec_alloc_all
  alloc_nodes-exec_alloc_all name zero a b h h' e = (
    ap (λ (x : Allocated). x.nodes) same_state ∙ sym (append-nil a.nodes),
    ground arith,
    ground arith,
  )
    where
      same_state : b ≡ a
      same_state = ground arith
  alloc_nodes-exec_alloc_all name (suc count) a b h h' e =
      let (a1, h1, one, rest) =
        bind-eq-ok (alloc_one (in_exec_env w c) name a) (alloc_nodes (in_exec_env w c) name count) h
          e in
      let (node, answer, nodes, trace) = alloc_one_asked (in_exec_env w c) name a a1 h h1 one in
      let first = exec_alloc (counters_after c h) (name <> "-consul-srv") consul_ports in
      let same_node : first.0 ≡ node = ground arith in
      let given : (a.nodes ++ (node ∷ [])) ≡ (a.nodes ++ (first.0 ∷ [])) =
        ap (λ (n : Node). a.nodes ++ (n ∷ [])) (sym same_node) in
      let (all_nodes, counters, ran) = alloc_nodes-exec_alloc_all name count a1 b h1 h' rest in
      let there : counters_after c h1
          ≡ (exec_alloc (counters_after c h) (name <> "-consul-srv") consul_ports).1 =
        ap (counters_after c) trace in
      (
        all_nodes
            ∙ ap
                (λ (l : List Node).
                  l ++ (exec_alloc_all (counters_after c h1) (requests name count)).0)
                (nodes ∙ given)
            ∙ append_assoc a.nodes (first.0 ∷ [])
                (exec_alloc_all (counters_after c h1) (requests name count)).0
            ∙ ap
                (λ (k : ExecCounters).
                  a.nodes ++ (first.0 ∷ (exec_alloc_all k (requests name count)).0))
                there,
        counters ∙ ap (λ (k : ExecCounters). (exec_alloc_all k (requests name count)).1) there,
        ran ∙ ap ran_on trace,
      )

  start_one-ran_on :
      (has_ca : Bool) (node : Node) (s d : ConsulCluster) (h h' : List Event)
      → start_one w has_ca node s h ≡ (ok d, h')
      → (ran_on h' ≡ node ∷ ran_on h) × (counters_after c h' ≡ counters_after c h)
  unfolding start_one cluster_tls
  start_one-ran_on has_ca node s d h h' e =
      let (tls, h1, e1, r1) = bind-eq-ok (cluster_tls w has_ca Clusters.consul) _ h e in
      let (server, h2, e2, r2) =
        bind-eq-ok (run_node w (server_command s.join_addrs tls) node) _ h1 r1 in
      (ground arith, ground arith)

  start_servers-ran_on :
      (has_ca : Bool) (nodes : List Node) (s d : ConsulCluster) (h h' : List Event)
      → start_servers w has_ca nodes s h ≡ (ok d, h')
      → (ran_on h' ≡ newest_first nodes (ran_on h)) × (counters_after c h' ≡ counters_after c h)
  unfolding start_servers
  start_servers-ran_on has_ca [] s d h h' e = (ground arith, ground arith)
  start_servers-ran_on has_ca (node ∷ nodes) s d h h' e =
      let (s1, h1, one, rest) =
        bind-eq-ok (start_one w has_ca node s) (start_servers w has_ca nodes) h e in
      let (here, same) = start_one-ran_on has_ca node s s1 h h1 one in
      let (there, later) = start_servers-ran_on has_ca nodes s1 d h1 h' rest in
      (there ∙ ap (newest_first nodes) here, later ∙ same)

requests-OrdersDistinct : (name : String) (count : ℕ) → OrdersDistinct (requests name count)
unfolding yurt.Commands.Consul.runner_ports
requests-OrdersDistinct name zero = tt
requests-OrdersDistinct name (suc count) = (ground arith, requests-OrdersDistinct name count)

ports_asked-requests : (name : String) (count : ℕ) → ports_asked (requests name count) ≡ 5 * count
unfolding yurt.Commands.Consul.runner_ports
ports_asked-requests name zero = refl
ports_asked-requests name (suc count) = omega (arith, ports_asked-requests name count)

-- What the cluster has done with the counters, as one run of allocations from them.
abbrev pub Allocates : ExecCounters → List Request → List Node → ExecCounters → Type 0
Allocates before requests nodes after =
    (exec_alloc_all before requests ≡ (nodes, after))
    × (all_numbers nodes ≡ count_up (ports_asked requests) before.first_port)

-- In an `ExecEnv` whose port counter does not overflow, a Consul cluster of n servers that is made
-- has run its servers, in order, on the nodes of n allocations from the counters before it, of five
-- ports each; all its port numbers, server by server, count up by one from the counter; and it
-- leaves the counters of those allocations.
pub new_consul_cluster-exec_alloc_all :
    (w : World) (c : ExecCounters) (has_ca : Bool) (name : String) (count : ℕ) (h h' : List Event)
    (d : ConsulCluster)
    → (counters_after c h).first_port + 5 * count < int32_half
    → new_consul_cluster (in_exec_env w c) has_ca name count h ≡ (ok d, h')
    → (nodes : List Node) × (ran_on h' ≡ newest_first nodes (ran_on h))
      × Allocates (counters_after c h) (requests name count) nodes (counters_after c h')
unfolding new_consul_cluster
new_consul_cluster-exec_alloc_all w c has_ca name count h h' d below e =
    let world = in_exec_env w c in
    let before = counters_after c h in
    let asked = ports_asked-requests name count in
    let (a, h1, e1, r1) = bind-eq-ok (alloc_nodes world name count no_nodes) _ h e in
    let (s, h2, e2, r2) =
      bind-eq-ok (start_servers world has_ca a.nodes (no_servers a)) (check world) h1 r1 in
    let (nodes, counters, quiet) = alloc_nodes-exec_alloc_all w c name count no_nodes a h h1 e1 in
    let (ran, same) = start_servers-ran_on world c has_ca a.nodes (no_servers a) s h1 h2 e2 in
    let (_, trace, _) = check_ok world s d h2 h' r2 in
    (
      a.nodes,
      ap ran_on trace ∙ ran ∙ ap (newest_first a.nodes) quiet,
      (
        ap (λ (l : List Node). (l, (exec_alloc_all before (requests name count)).1)) (sym nodes)
            ∙ ap (λ (k : ExecCounters). (a.nodes, k))
                (sym (ap (counters_after c) trace ∙ same ∙ counters)),
        ap all_numbers nodes
            ∙ exec_alloc_all-numbers before (requests name count)
                (requests-OrdersDistinct name count) (omega (arith, asked)),
      ),
    )
