-- ===== src/Clusters/Consul/Allocating.antt =====
-- cluster/cluster.go: the nodes of a Consul cluster, and what a history has started and stopped.
use yurt.Prelude.{
  ℕ, zero, suc, ◌+◌, ◌≡◌, refl, String, ◌<>◌, List, [], ◌∷◌, ◌++◌, length, length-append, arith,
  ◌∙◌, ap, sym,
}
use yurt.Effects.{Result, ok, err}
use yurt.Effects.Calls.{continue, bind-eq-ok, lift}
use yurt.Types.{Node, address}
use yurt.Clusters.{World, Event, Harness, cluster_tls}
use yurt.Clusters
use yurt.Clusters.Consul.{ask_node, Allocated, alloc_one, alloc_nodes}

-- The processes that were stopped.
abbrev pub stopped : List Event → List Harness
stopped [] = []
stopped (Clusters.stop s ∷ h) = s ∷ stopped h
stopped (_ ∷ h) = stopped h

-- The processes that were started, the newest first.
abbrev pub started : List Event → List Harness
started [] = []
started (Clusters.watch s ∷ h) = s ∷ started h
started (_ ∷ h) = started h

-- Each list has one element more.
abbrev OneMore : Allocated → Allocated → Type 0
OneMore a b =
    (length b.nodes ≡ length a.nodes + 1)
    × (length b.join_addrs ≡ length a.join_addrs + 1)
    × (length b.peer_addrs ≡ length a.peer_addrs + 1)

alloc_one_addresses :
    (w : World) (name : String) (a b : Allocated) (h h' : List Event)
    → alloc_one w name a h ≡ (ok b, h')
    → (node : Node) × (join_addr : String) × (server_addr : String) × (address node "serf-lan"
        ≡ ok join_addr)
      × (address node "server" ≡ ok server_addr)
      × (b.nodes ≡ a.nodes ++ (node ∷ []))
      × (b.join_addrs ≡ a.join_addrs ++ (join_addr ∷ []))
      × (b.peer_addrs ≡ a.peer_addrs ++ (server_addr ∷ []))
unfolding alloc_one
alloc_one_addresses w name a b h h' e =
    let (node, h1, _, r1) = bind-eq-ok (ask_node w (name <> "-consul-srv")) _ h e in
    let (join_addr, h2, e2, r2) = bind-eq-ok (lift (address node "serf-lan")) _ h1 r1 in
    let (server_addr, h3, e3, r3) = bind-eq-ok (lift (address node "server")) _ h2 r2 in
    (
      node,
      join_addr,
      server_addr,
      ground arith,
      ground arith,
      ground arith,
      ground arith,
      ground arith,
    )

alloc_one_ok :
    (w : World) (name : String) (a b : Allocated) (h h' : List Event)
    → alloc_one w name a h ≡ (ok b, h')
    → OneMore a b
alloc_one_ok w name a b h h' e =
    let (node, join_addr, server_addr, _, _, n, j, s) = alloc_one_addresses w name a b h h' e in
    (
      ap length n ∙ length-append a.nodes (node ∷ []),
      ap length j ∙ length-append a.join_addrs (join_addr ∷ []),
      ap length s ∙ length-append a.peer_addrs (server_addr ∷ []),
    )

pub alloc_nodes_ok :
    (w : World) (name : String) (count : ℕ) (a b : Allocated) (h h' : List Event)
    → alloc_nodes w name count a h ≡ (ok b, h')
    → (length b.nodes ≡ length a.nodes + count)
      × (length b.join_addrs ≡ length a.join_addrs + count)
      × (length b.peer_addrs ≡ length a.peer_addrs + count)
unfolding alloc_nodes
alloc_nodes_ok w name zero a b h h' e = ground arith
alloc_nodes_ok w name (suc count) a b h h' e =
    let (a1, h1, one, rest) = bind-eq-ok (alloc_one w name a) (alloc_nodes w name count) h e in
    ground (arith, alloc_one_ok w name a a1 h h1 one, alloc_nodes_ok w name count a1 b h1 h' rest)

-- No process was started or stopped between the two histories.
abbrev pub Quiet : List Event → List Event → Type 0
Quiet h h' = (started h' ≡ started h) × (stopped h' ≡ stopped h)

alloc_one-Quiet :
    (w : World) (name : String) (a : Allocated) (h : List Event) → Quiet h (alloc_one w name a h).1
unfolding alloc_one
alloc_one-Quiet w name a h = ground arith

alloc_nodes-Quiet :
    (w : World) (name : String) (count : ℕ) (a : Allocated) (h : List Event)
    → Quiet h (alloc_nodes w name count a h).1
unfolding alloc_nodes
alloc_nodes-Quiet w name zero a h = (refl, refl)
alloc_nodes-Quiet w name (suc count) a h =
    next (alloc_one w name a h) (alloc_one-Quiet w name a h)
      (λ b h1. alloc_nodes-Quiet w name count b h1)
  where
    next :
        (r : Result Allocated × List Event)
        → Quiet h r.1
        → ((b : Allocated) (h1 : List Event) → Quiet h1 (alloc_nodes w name count b h1).1)
        → Quiet h (continue r.0 (alloc_nodes w name count) r.1).1
    next (err e, h1) q later = q
    next (ok b, h1) q later = ((later b h1).0 ∙ q.0, (later b h1).1 ∙ q.1)

pub alloc_nodes-Quiet_ok :
    (w : World) (name : String) (count : ℕ) (a b : Allocated) (h h' : List Event)
    → alloc_nodes w name count a h ≡ (ok b, h')
    → Quiet h h'
alloc_nodes-Quiet_ok w name count a b h h' e =
    let q = alloc_nodes-Quiet w name count a h in
    let last = ap (λ (r : Result Allocated × List Event). r.1) (sym e) in
    (ap started last ∙ q.0, ap stopped last ∙ q.1)
