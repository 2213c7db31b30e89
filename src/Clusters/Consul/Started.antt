-- ===== src/Clusters/Consul/Started.antt =====
-- cluster/cluster.go: what the creation of a Consul cluster starts.
use yurt.Prelude.{
  ℕ, ◌+◌, ◌≡◌, refl, String, Bool, List, [], ◌∷◌, ◌++◌, length, length-append, arith, ◌∙◌, ap, sym,
}
use mathlib.Core.Path.{subst₂}
use yurt.Effects.{ok}
use yurt.Effects.Calls.{bind-eq-ok}
use yurt.Types.{Node}
use yurt.Clusters.{World, Event, Harness, cluster_tls}
use yurt.Clusters
use yurt.Clusters.Consul.{
  ConsulCluster, run_node, server_command, alloc_nodes, start_one, start_servers,
  new_consul_cluster, no_nodes, no_servers, check,
}
use yurt.Clusters.Consul.Allocating.{started, stopped, alloc_nodes_ok, alloc_nodes-Quiet_ok}

-- The servers of the cluster are the processes that were started, and none was stopped.
start_one_ok :
    (w : World) (has_ca : Bool) (node : Node) (c d : ConsulCluster) (h h' : List Event)
    → start_one w has_ca node c h ≡ (ok d, h')
    → (server : Harness) × (d.servers ≡ c.servers ++ (server ∷ []))
      × (started h' ≡ server ∷ started h)
      × (stopped h' ≡ stopped h)
      × (d.join_addrs ≡ c.join_addrs)
      × (d.peer_addrs ≡ c.peer_addrs)
unfolding start_one cluster_tls
start_one_ok w has_ca node c d h h' e =
    let (tls, h1, e1, r1) = bind-eq-ok (cluster_tls w has_ca Clusters.consul) _ h e in
    let (server, h2, e2, r2) =
      bind-eq-ok (run_node w (server_command c.join_addrs tls) node) _ h1 r1 in
    (server, ground arith, ground arith, ground arith, ground arith, ground arith)

-- A list in the order in which the events list it, in front of `older`.
abbrev pub newest_first : {A : Type 0} → List A → List A → List A
newest_first [] older = older
newest_first (s ∷ servers) older = newest_first servers (s ∷ older)

pub newest_first-append :
    {A : Type 0} (servers : List A) (s : A) (older : List A)
    → newest_first (servers ++ (s ∷ [])) older ≡ s ∷ newest_first servers older
newest_first-append [] s older = refl
newest_first-append (x ∷ servers) s older = newest_first-append servers s (x ∷ older)

-- What a successful loop has added.
record Added (nodes : List Node) (c d : ConsulCluster) (h h' : List Event) : Type 0 where
  all_servers : length d.servers ≡ length c.servers + length nodes
  in_order :
      (older : List Harness)
      → started h ≡ newest_first c.servers older
      → started h' ≡ newest_first d.servers older
  none_stopped : stopped h' ≡ stopped h
  same_joins : d.join_addrs ≡ c.join_addrs
  same_peers : d.peer_addrs ≡ c.peer_addrs

start_servers-Added :
    (w : World) (has_ca : Bool) (nodes : List Node) (c d : ConsulCluster) (h h' : List Event)
    → start_servers w has_ca nodes c h ≡ (ok d, h')
    → Added nodes c d h h'
unfolding start_servers
start_servers-Added w has_ca [] c d h h' e = record {
  all_servers = ground arith;
  in_order = λ older p. ground arith;
  none_stopped = ground arith;
  same_joins = ground arith;
  same_peers = ground arith;
}
start_servers-Added w has_ca (node ∷ nodes) c d h h' e =
    let (c1, h1, one, rest) =
      bind-eq-ok (start_one w has_ca node c) (start_servers w has_ca nodes) h e in
    let (server, more, new, quiet, joins, peers) = start_one_ok w has_ca node c c1 h h1 one in
    let later = start_servers-Added w has_ca nodes c1 d h1 h' rest in
    record {
      all_servers =
          omega (arith, later.all_servers, ap length more, length-append c.servers (server ∷ []));
      in_order = λ older p. later.in_order older (
          new
          ∙ ap (λ (l : List Harness). server ∷ l) p
          ∙ sym (newest_first-append c.servers server older)
          ∙ ap (λ (l : List Harness). newest_first l older) (sym more));
      none_stopped = later.none_stopped ∙ quiet;
      same_joins = later.same_joins ∙ joins;
      same_peers = later.same_peers ∙ peers;
    }

pub check_ok :
    (w : World) (d c : ConsulCluster) (h h' : List Event)
    → check w d h ≡ (ok c, h')
    → (c ≡ d)
      × (h' ≡ Clusters.consul_healthy d.servers d.peer_addrs ∷ h)
      × (w.consul_healthy d.servers d.peer_addrs h ≡ ok tt)
check_ok w d c h h' e = ground arith

-- A cluster of n servers, all of them started since `h` and none stopped, that was found healthy by
-- the last call.
abbrev pub Made : World → ℕ → List Event → ConsulCluster → List Event → Type 0
Made w count h c h' =
    (length c.servers ≡ count)
    × (length c.join_addrs ≡ count)
    × (length c.peer_addrs ≡ count)
    × (started h' ≡ newest_first c.servers (started h))
    × (stopped h' ≡ stopped h)
    × ((h1 : List Event) × (h' ≡ Clusters.consul_healthy c.servers c.peer_addrs ∷ h1)
        × (w.consul_healthy c.servers c.peer_addrs h1 ≡ ok tt))

checked-Made :
    (w : World) (count : ℕ) (c : ConsulCluster) (h h1 : List Event)
    → length c.servers ≡ count
    → length c.join_addrs ≡ count
    → length c.peer_addrs ≡ count
    → started h1 ≡ newest_first c.servers (started h)
    → stopped h1 ≡ stopped h
    → w.consul_healthy c.servers c.peer_addrs h1 ≡ ok tt
    → Made w count h c (Clusters.consul_healthy c.servers c.peer_addrs ∷ h1)
checked-Made w count c h h1 servers joins peers new old healthy =
    (servers, joins, peers, new, old, (h1, refl, healthy))

-- When a Consul cluster of n servers is made, it has n servers, n addresses to join and n addresses
-- of peers; the servers are exactly the processes that were started, in order, none of them stopped;
-- and the last call was the health check of all servers against all peers, which succeeded.
pub new_consul_cluster_ok :
    (w : World) (has_ca : Bool) (name : String) (count : ℕ) (h h' : List Event) (c : ConsulCluster)
    → new_consul_cluster w has_ca name count h ≡ (ok c, h')
    → Made w count h c h'
unfolding new_consul_cluster
new_consul_cluster_ok w has_ca name count h h' c e =
    let (a, h1, e1, r1) = bind-eq-ok (alloc_nodes w name count no_nodes) _ h e in
    let (d, h2, e2, r2) =
      bind-eq-ok (start_servers w has_ca a.nodes (no_servers a)) (check w) h1 r1 in
    let counts = alloc_nodes_ok w name count no_nodes a h h1 e1 in
    let added = start_servers-Added w has_ca a.nodes (no_servers a) d h1 h2 e2 in
    let quiet = alloc_nodes-Quiet_ok w name count no_nodes a h h1 e1 in
    let (same, trace, answer) = check_ok w d c h2 h' r2 in
    let servers : length d.servers ≡ count = omega (arith, added.all_servers, counts.0) in
    let joins : length d.join_addrs ≡ count =
      ap length added.same_joins ∙ omega (arith, counts.1) in
    let peers : length d.peer_addrs ≡ count =
      ap length added.same_peers ∙ omega (arith, counts.2) in
    let started2 = added.in_order (started h) quiet.0 in
    let made =
      checked-Made w count d h h2 servers joins peers started2 (added.none_stopped ∙ quiet.1)
        answer in
    subst₂ (λ (x : ConsulCluster) (t : List Event). Made w count h x t) (sym same) (sym trace) made
