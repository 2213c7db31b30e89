-- ===== src/Clusters/Vault/Replacing/Stops.antt =====
-- cluster/cluster.go, `ReplaceNode`: which server it stops and which it puts in its place.
use yurt.Prelude.{
  ◌≡◌, refl, ℕ, zero, suc, Bool, false, List, [], ◌∷◌, Option, none, some, arith, set,
}
use yurt.Effects.{Error, ok}
use yurt.Effects.Calls.{call}
use yurt.Effects.Methods.{pure, lift, calling, reading, ◌>>=◌, bind-eq-ok}
use yurt.Clusters.{Event, Harness}
use yurt.Clusters
use yurt.Clusters.Consul.Allocating.{stopped}
use yurt.Clusters.Vault.{VaultCluster, VaultWorld, start_vault, nth, consul_addr_of}
use yurt.Clusters.Vault.Joining.{ask_unseal}
use yurt.Clusters.Vault.Creating.{ask_autopilot}
use yurt.Clusters.Vault.Quiet.{
  State, Same, IsQuiet, bind-IsQuiet, start_vault-IsQuiet, read-IsQuiet,
}
use yurt.Clusters.Vault.Replacing.{
  unseal_until, with_server_at, put_server, stop_at, replace_node, autopilot_if_raft, replace_one,
  wait_leader, leader_number, clients,
}

unseal_until-IsQuiet :
    (w : VaultWorld) (x : Harness) (migrate : Bool) (rounds : ℕ) (last : Option Error)
    → IsQuiet (unseal_until w x migrate rounds last)
unfolding unseal_until
unseal_until-IsQuiet w x migrate zero last = (record { same = λ t. (refl, refl, refl) })
unseal_until-IsQuiet w x migrate (suc rounds) last =
    read-IsQuiet (λ (c : VaultCluster). c.unseal_keys) _
      (λ keys.
        bind-IsQuiet (lift (nth keys 0)) _ (record { same = λ t. (refl, refl, refl) })
          (λ key.
            bind-IsQuiet (calling (ask_unseal w x key migrate)) _
              (record { same = λ t. (refl, refl, refl) })
              (λ answer.
                elim answer
                  as (λ (a : Option Error). IsQuiet {A = Unit {0}} (elim a [
                    | none ↦ pure tt
                    | some e ↦ unseal_until w x migrate rounds (some e)
                  ])) [
                    | none ↦ (record { same = λ t. (refl, refl, refl) })
                    | some e ↦ unseal_until-IsQuiet w x migrate rounds (some e)
                  ])))

put_server-Same :
    (w : VaultWorld) (idx : ℕ) (migrate : Bool) (x : Harness) (s : State)
    → Same (with_server_at idx x s.0, s.1) (put_server w idx migrate x s).1
unfolding put_server
put_server-Same w idx migrate x s =
    (bind-IsQuiet (calling (call (Clusters.vault_client x) (w.client x))) _
        (record { same = λ t. (refl, refl, refl) })
        (λ _.
          bind-IsQuiet (λ (t : State). (ok (w.rounds t.1), t)) _
            (record { same = λ t. (refl, refl, refl) })
            (λ rounds. unseal_until-IsQuiet w x migrate rounds none))).same
      (with_server_at idx x s.0, s.1)

stop_at_ok :
    (w : VaultWorld) (idx : ℕ) (s s' : State)
    → stop_at w idx s ≡ (ok tt, s')
    → (x : Harness) × (nth s.0.servers idx ≡ ok x) × (s' ≡ (s.0, Clusters.stop x ∷ s.1))
unfolding stop_at
stop_at_ok w idx s s' e =
    let (servers, s1, e1, r1) =
      bind-eq-ok (reading (λ (c : VaultCluster). c.servers))
        (λ (l : List Harness).
          lift (nth l idx) >>= λ old. calling (call (Clusters.stop old) (w.stop old)))
        s e in
    let (old, s2, e2, r2) =
      bind-eq-ok (lift (nth servers idx)) (λ old. calling (call (Clusters.stop old) (w.stop old)))
        s1 r1 in
    (old, ground arith, ground arith)

-- One server was stopped, and another put in its place.
abbrev pub Swapped : ℕ → State → State → Type 0
Swapped idx s t =
    (x : Harness) × (y : Harness) × (nth s.0.servers idx ≡ ok x)
    × (t.0.servers ≡ set s.0.servers idx y)
    × (stopped t.1 ≡ x ∷ stopped s.1)

replace_node-Swapped :
    (w : VaultWorld) (idx : ℕ) (has_ca migrate : Bool) (s s' : State)
    → replace_node w idx has_ca migrate s ≡ (ok tt, s')
    → Swapped idx s s'
unfolding replace_node
replace_node-Swapped w idx has_ca migrate s s' e =
    let (_, s1, e1, r1) = bind-eq-ok (stop_at w idx) _ s e in
    let (c, s2, e2, r2) =
      bind-eq-ok (reading (λ (c : VaultCluster). c))
        (λ (c : VaultCluster). lift (nth c.nodes idx) >>= λ node.
          start_vault w node (consul_addr_of c.consul_addrs idx) has_ca 3 >>= λ x.
          put_server w idx migrate x)
        s1 r1 in
    let (node, s3, e3, r3) =
      bind-eq-ok (lift (nth c.nodes idx))
        (λ node. start_vault w node (consul_addr_of c.consul_addrs idx) has_ca 3 >>= λ x.
          put_server w idx migrate x)
        s2 r2 in
    let (y, s4, e4, r4) =
      bind-eq-ok (start_vault w node (consul_addr_of c.consul_addrs idx) has_ca 3)
        (λ x. put_server w idx migrate x) s3 r3 in
    let (x, found, after) = stop_at_ok w idx s s1 e1 in
    let quiet = (start_vault-IsQuiet w node (consul_addr_of c.consul_addrs idx) has_ca 3).same s3 in
    let last = put_server-Same w idx migrate y s4 in (x, y, found, ground arith, ground arith)

autopilot-IsQuiet : (w : VaultWorld) → IsQuiet (autopilot_if_raft w)
unfolding autopilot_if_raft ask_autopilot
autopilot-IsQuiet w = record { same = λ s. ground arith }

pub replace_one-Swapped :
    (w : VaultWorld) (idx : ℕ) (migrate : Bool) (s s' : State)
    → replace_one w idx migrate s ≡ (ok tt, s')
    → Swapped idx s s'
unfolding replace_one
replace_one-Swapped w idx migrate s s' e =
    let (_, s1, e1, r1) =
      bind-eq-ok (replace_node w idx false migrate) (λ _. autopilot_if_raft w) s e in
    let (x, y, found, put, stop) = replace_node-Swapped w idx false migrate s s1 e1 in
    let quiet = (autopilot-IsQuiet w).same s1 in (x, y, found, ground arith, ground arith)

pub wait_leader-IsQuiet : (w : VaultWorld) (rounds : ℕ) → IsQuiet (wait_leader w rounds)
unfolding wait_leader
wait_leader-IsQuiet w zero = record { same = λ s. (refl, refl, refl) }
wait_leader-IsQuiet w (suc rounds) = record {
  same = λ s.
      ground
        (arith, (wait_leader-IsQuiet w rounds).same (s.0, Clusters.vault_leader s.0.servers ∷ s.1));
}

clients-IsQuiet : (w : VaultWorld) (servers : List Harness) → IsQuiet (clients w servers)
unfolding clients
clients-IsQuiet w [] = record { same = λ s. (refl, refl, refl) }
clients-IsQuiet w (x ∷ servers) = record {
  same = λ s. ground (arith, (clients-IsQuiet w servers).same (s.0, Clusters.vault_client x ∷ s.1));
}

pub leader_number-IsQuiet :
    (w : VaultWorld) (servers : List Harness) → IsQuiet (leader_number w servers)
unfolding leader_number
leader_number-IsQuiet w servers =
    bind-IsQuiet (clients w servers) _ (clients-IsQuiet w servers)
      (λ addresses. record { same = λ s. ground arith })
