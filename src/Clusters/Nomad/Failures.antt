-- ===== src/Clusters/Nomad/Failures.antt =====
-- cluster/cluster.go, `NewNomadCluster`: what a failed creation of a Nomad cluster stops.
use yurt.Prelude.{
  ◌≡◌, refl, String, Bool, true, false, List, [], ◌∷◌, ◌++◌, arith, ℕ, ◌∙◌, ◌<>◌, suc, zero,
}
use mathlib.Core.Path.{subst}
use yurt.Effects.{Error, Result, ok, err}
use yurt.Commands.Command.{Command}
use yurt.Clusters.{World, Event, Harness, cluster_tls, TlsConfigPem, Node, note}
use yurt.Clusters
use yurt.Clusters.Consul.{ConsulCluster, client_agent, run_node}
use yurt.Clusters.Consul.Allocating.{started, stopped}
use yurt.Effects.Calls.{pure, ◌>>=◌, ◌>>◌}
use yurt.Clusters.Nomad.{
  NomadCluster, Allocated, with_agent, server_command, or_stop, ask_endpoint, ask_healthy,
  alloc_nodes, start_with_agent, start_one, start_servers, check, new_nomad_cluster, no_servers,
  no_nodes, peer_addr, nomad_ports,
}
use yurt.Clusters.Nomad.Stopping.{
  Post, quiet-Failed, Known, Triple, AllStopped, stops, last_call, is_nomad, cluster_tls_lem,
  Known-agent, Known-server, bind-Triple, or_stop-Triple, quiet-Triple,
}

client_agent_lem :
    (w : World) (has_ca : Bool) (peers : ConsulCluster) (name : String) (h h' : List Event)
    (r : Result Harness)
    → client_agent w has_ca peers name h ≡ (r, h')
    → (started h' ≡ started h)
      × (stopped h' ≡ stopped h)
      × ((e : Error) → r ≡ err e → stops (last_call h') ≡ false)
unfolding client_agent cluster_tls
client_agent_lem w has_ca peers name h h' r p = (ground arith, ground arith, λ e q. ground arith)

start_with_agent-Triple :
    (w : World) (has_ca : Bool) (count : ℕ) (node : Node) (c : NomadCluster) (agent : Harness)
    → Triple (Known c) (start_with_agent w has_ca count node c agent) Known
unfolding start_with_agent
start_with_agent-Triple w has_ca count node c agent =
    bind-Triple (Known c) (λ _. Known c1) (note (Clusters.watch agent)) _ (Known-agent c agent)
      (λ _.
        bind-Triple (Known c1) (λ _. Known c1) (or_stop c1 (ask_endpoint w agent)) _
          (or_stop-Triple c1 (Clusters.endpoint agent) (w.endpoint agent) refl
            (λ h. (refl, refl, refl)))
          (λ addr.
            bind-Triple (Known c1) (λ _. Known c1) (cluster_tls w has_ca Clusters.nomad) _
              (quiet-Triple c1 (cluster_tls w has_ca Clusters.nomad)
                (cluster_tls_lem w has_ca Clusters.nomad))
              (λ tls. run_server (server_command count addr tls) refl)))
  where
    c1 : NomadCluster
    c1 = with_agent c agent

    run_server :
        (command : Command)
        → is_nomad command ≡ true
        → Triple
            (Known c1)
            (or_stop c1 (run_node w command node) >>= λ server.
              note (Clusters.watch server)
              >> pure (record c1 { servers = c.servers ++ (server ∷ []) }))
            Known
    run_server command n =
        bind-Triple (Known c1) (λ _. Known c1) (or_stop c1 (run_node w command node)) _
          (or_stop-Triple c1 (Clusters.run command node) (w.run command node) n
            (λ h. (refl, refl, refl)))
          (λ server h k. Known-server c1 server h k)

start_one-Triple :
    (w : World) (has_ca : Bool) (name : String) (count : ℕ) (peers : ConsulCluster) (node : Node)
    (c : NomadCluster)
    → Triple (Known c) (start_one w has_ca name count peers node c) Known
unfolding start_one
start_one-Triple w has_ca name count peers node c =
    let agent = client_agent w has_ca peers (name <> "-consul-cli") in
    bind-Triple (Known c) (λ _. Known c) agent (start_with_agent w has_ca count node c)
      (quiet-Triple c agent (client_agent_lem w has_ca peers (name <> "-consul-cli")))
      (start_with_agent-Triple w has_ca count node c)

start_servers-Triple :
    (w : World) (has_ca : Bool) (name : String) (count : ℕ) (peers : ConsulCluster)
    (nodes : List Node) (c : NomadCluster)
    → Triple (Known c) (start_servers w has_ca name count peers nodes c) Known
unfolding start_servers
start_servers-Triple w has_ca name count peers [] c h k = k
start_servers-Triple w has_ca name count peers (node ∷ nodes) c h k =
    bind-Triple (Known c) Known (start_one w has_ca name count peers node c)
      (start_servers w has_ca name count peers nodes)
      (start_one-Triple w has_ca name count peers node c)
      (start_servers-Triple w has_ca name count peers nodes) h k

check-Triple : (w : World) (c : NomadCluster) → Triple (Known c) (check w c) Known
check-Triple w c =
    bind-Triple (Known c) (λ _. Known c) (or_stop c (ask_healthy w c)) _
      (or_stop-Triple c (Clusters.nomad_healthy c.servers c.peer_addrs)
        (w.nomad_healthy c.servers c.peer_addrs) refl (λ h. (refl, refl, refl)))
      (λ _ h k. k)

alloc_nodes_lem :
    (w : World) (name : String) (count : ℕ) (a : Allocated) (h h' : List Event)
    (r : Result Allocated)
    → alloc_nodes w name count a h ≡ (r, h')
    → (started h' ≡ started h)
      × (stopped h' ≡ stopped h)
      × ((e : Error) → r ≡ err e → stops (last_call h') ≡ false)
unfolding alloc_nodes
alloc_nodes_lem w name zero a h h' r p = (ground arith, ground arith, λ e q. ground arith)
alloc_nodes_lem w name (suc count) a h h' r p =
    next (w.alloc_node (name <> "-nomad-srv") nomad_ports h) refl (λ node q.
      alloc_nodes_lem w name count
        (record {
          nodes = a.nodes ++ (node ∷ []);
          peer_addrs = a.peer_addrs ++ (peer_addr node ∷ []);
        })
        (asked ∷ h) h' r q)
  where
    asked : Event
    asked = Clusters.alloc_node (name <> "-nomad-srv") nomad_ports

    Quiet : Type 0
    Quiet =
        (started h' ≡ started h)
        × (stopped h' ≡ stopped h)
        × ((e : Error) → r ≡ err e → stops (last_call h') ≡ false)

    next :
        (v : Result Node)
        → w.alloc_node (name <> "-nomad-srv") nomad_ports h ≡ v
        → ((node : Node)
            → alloc_nodes w name count
                (record {
                  nodes = a.nodes ++ (node ∷ []);
                  peer_addrs = a.peer_addrs ++ (peer_addr node ∷ []);
                })
                (asked ∷ h)
              ≡ (r, h')
            → Quiet)
        → Quiet
    next (ok node) q later = later node (ground arith)
    next (err x) q later = (ground arith, ground arith, λ e k. ground arith)

-- Nothing was started or stopped.
abbrev Idle : List Event → Type 0
Idle h = (started h ≡ []) × (stopped h ≡ [])

alloc_nodes-Triple :
    (w : World) (name : String) (count : ℕ)
    → Triple Idle (alloc_nodes w name count no_nodes) (λ a. Known (no_servers a))
alloc_nodes-Triple w name count h k =
    next (alloc_nodes w name count no_nodes h).0 (alloc_nodes w name count no_nodes h).1 refl
  where
    next :
        (r : Result Allocated) (h' : List Event)
        → alloc_nodes w name count no_nodes h ≡ (r, h')
        → Post (λ (a : Allocated). Known (no_servers a)) (r, h')
    next (ok a) h' p =
        let (new, old, _) = alloc_nodes_lem w name count no_nodes h h' (ok a) p in
        (λ s m. ground (arith, m, new, k), old ∙ k.1)
    next (err e) h' p =
        let (new, old, quiet) = alloc_nodes_lem w name count no_nodes h h' (err e) p in
        quiet-Failed h' (old ∙ k.1) (quiet e refl)

new_nomad_cluster-Triple :
    (w : World) (has_ca : Bool) (name : String) (count : ℕ) (peers : ConsulCluster)
    → Triple Idle (new_nomad_cluster w has_ca name count peers) Known
unfolding new_nomad_cluster
new_nomad_cluster-Triple w has_ca name count peers =
    let start = λ (a : Allocated). start_servers w has_ca name count peers a.nodes (no_servers a) in
    bind-Triple Idle (λ a. Known (no_servers a)) (alloc_nodes w name count no_nodes)
      (λ a. start a >>= check w) (alloc_nodes-Triple w name count)
      (λ a.
        bind-Triple (Known (no_servers a)) Known (start a) (check w)
          (start_servers-Triple w has_ca name count peers a.nodes (no_servers a)) (check-Triple w))

-- When the creation of a Nomad cluster, as the first thing that is done, fails, it has stopped all that
-- it started if the last call was for an endpoint, for the start of a Nomad server or for the health
-- check, and it has stopped nothing if the last call was another one.
pub new_nomad_cluster_failed :
    (w : World) (has_ca : Bool) (name : String) (count : ℕ) (peers : ConsulCluster) (e : Error)
    (h : List Event)
    → new_nomad_cluster w has_ca name count peers [] ≡ (err e, h)
    → ((stops (last_call h) ≡ true) → AllStopped h)
      × ((stops (last_call h) ≡ false) → stopped h ≡ [])
new_nomad_cluster_failed w has_ca name count peers e h p =
    subst (Post Known) p (new_nomad_cluster-Triple w has_ca name count peers [] (refl, refl))
