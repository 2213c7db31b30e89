-- ===== src/Clusters/Vault/Addresses.antt =====
-- cluster/cluster.go, `NewVaultCluster`: the nodes and their addresses.
use yurt.Prelude.{
  ◌≡◌, ◌∙◌, ap, sym, ℕ, zero, suc, ◌+◌, String, ◌<>◌, List, [], ◌∷◌, ◌++◌, arith, length,
  length-append, map,
}
use mathlib.Core.List.{map-append}
use mathlib.Core.Path.{subst₂}
use yurt.Effects.{Result, ok}
use yurt.Effects.Calls.{Exec, call}
use yurt.Effects.Methods.{pure, lift, calling, change, ◌>>=◌, ◌>>◌, bind-eq-ok}
use yurt.Types.{Node, address}
use yurt.Clusters.{Event, Harness, Seal}
use yurt.Clusters
use yurt.Clusters.Vault.{
  VaultCluster, VaultWorld, Vaults, vault_ports, with_join, alloc_one, alloc_nodes,
}
use yurt.Clusters.Vault.Quiet.{State}
use yurt.Clusters.Vault.Idle.{runs}

-- What the caller has given is kept.
abbrev pub Kept : VaultCluster → VaultCluster → Type 0
Kept c d = (d.consul_addrs ≡ c.consul_addrs) × (d.seal ≡ c.seal) × (d.old_seal ≡ c.old_seal)

-- The addresses to join are the addresses of the nodes.
abbrev pub Addressed : List Node → VaultCluster → Type 0
Addressed nodes c =
    map (λ (a : String). ok a) c.join_addrs ≡ map (λ (n : Node). address n "http") nodes

-- One more of each.
next-Addressed :
    (nodes all : List Node) (c d : VaultCluster) (node : Node) (a : String)
    → Addressed nodes c
    → address node "http" ≡ ok a
    → all ≡ nodes ++ (node ∷ [])
    → d.join_addrs ≡ c.join_addrs ++ (a ∷ [])
    → Addressed all d
next-Addressed nodes all c d node a h found more joins =
    ap (map (λ (a : String). ok a)) joins
    ∙ map-append (λ (a : String). ok a) c.join_addrs (a ∷ [])
    ∙ ap (λ (l : List (Result String)). l ++ (ok a ∷ [])) h
    ∙ ap (λ (r : Result String). map (λ (n : Node). address n "http") nodes ++ (r ∷ [])) (sym found)
    ∙ sym (map-append (λ (n : Node). address n "http") nodes (node ∷ []))
    ∙ ap (map (λ (n : Node). address n "http")) (sym more)

alloc_one-Addressed :
    (w : VaultWorld) (name : String) (nodes all : List Node) (s s' : State)
    → alloc_one w name nodes s ≡ (ok all, s')
    → Addressed nodes s.0
    → (length all ≡ length nodes + 1) × Addressed all s'.0 × (runs s'.1 ≡ runs s.1) × Kept s.0 s'.0
unfolding alloc_one
alloc_one-Addressed w name nodes all s s' e h =
    let (node, s1, e1, r1) = bind-eq-ok (calling ask) with_node s e in
    let (a, s2, e2, r2) = bind-eq-ok (lift (address node "http")) (with_address node) s1 r1 in
    let more : all ≡ nodes ++ (node ∷ []) = ground arith in
    (
      ap (λ (l : List Node). length l) more ∙ length-append nodes (node ∷ []),
      next-Addressed nodes all s.0 s'.0 node a h (ground arith) more (ground arith),
      ground arith,
      (ground arith, ground arith, ground arith),
    )
  where
    ask : Exec Event Node
    ask =
        call (Clusters.alloc_node (name <> "-vault-srv") vault_ports)
          (w.world.alloc_node (name <> "-vault-srv") vault_ports)

    with_address : Node → String → Vaults (List Node)
    with_address node a = change (with_join a) >> pure (nodes ++ (node ∷ []))

    with_node : Node → Vaults (List Node)
    with_node node = lift (address node "http") >>= with_address node

pub alloc_nodes-Addressed :
    (w : VaultWorld) (name : String) (count : ℕ) (nodes all : List Node) (s s' : State)
    → alloc_nodes w name count nodes s ≡ (ok all, s')
    → Addressed nodes s.0
    → (length all ≡ length nodes + count)
      × Addressed all s'.0
      × (runs s'.1 ≡ runs s.1)
      × Kept s.0 s'.0
unfolding alloc_nodes
alloc_nodes-Addressed w name zero nodes all s s' e h =
    let same : all ≡ nodes = ground arith in
    let same_state : s' ≡ s = ground arith in
    (
      ap (λ (l : List Node). length l) same ∙ omega arith,
      subst₂ (λ (l : List Node) (t : State). Addressed l t.0) (sym same) (sym same_state) h,
      ap (λ (t : State). runs t.1) same_state,
      (ground arith, ground arith, ground arith),
    )
alloc_nodes-Addressed w name (suc count) nodes all s s' e h =
    let (more, s1, e1, r1) = bind-eq-ok (alloc_one w name nodes) (alloc_nodes w name count) s e in
    let (many, addressed, ran, kept) = alloc_one-Addressed w name nodes more s s1 e1 h in
    let (rest, all_addressed, all_ran, all_kept) =
      alloc_nodes-Addressed w name count more all s1 s' r1 addressed in
    (
      omega (arith, many, rest),
      all_addressed,
      all_ran ∙ ran,
      (all_kept.0 ∙ kept.0, all_kept.1 ∙ kept.1, all_kept.2 ∙ kept.2),
    )
