-- ===== src/Clusters/Vault/Replacing/Migrating.antt =====
-- cluster/cluster.go, `ReplaceAllActiveLast`: the flag -migrate with which servers are unsealed.
use yurt.Prelude.{
  if◌then◌else◌, ◌≡◌, refl, sym, ℕ, zero, suc, ◌+◌, ◌==◌, String, Bool, true, false, List, ◌∷◌,
  Option, none, some, arith,
}
use mathlib.Core.Path.{subst}
use yurt.Effects.{Error, ok, Result}
use yurt.Effects.Methods.{pure, lift, calling, reading, change, ◌>>=◌, bind-keeps}
use yurt.Types.{Node}
use yurt.Clusters.{Event, Harness, cluster_tls, TlsConfigPem, Command}
use yurt.Clusters
use yurt.Clusters.Vault.{
  VaultCluster, VaultWorld, Vaults, start_vault, nth, consul_addr_of, vault_config,
}
use yurt.Clusters.Vault.Creating.{ask_autopilot, is_empty}
use yurt.Clusters.Vault.Quiet.{State}
use yurt.Clusters.Vault.Replacing.{
  unseal_until, put_server, stop_at, replace_node, autopilot_if_raft, replace_one, replace_others,
  wait_leader, ask_unseal, ask_leader, with_server_at, is_named,
}
use yurt.Effects.Calls.{call}

-- An event that unseals has the flag.
abbrev pub Flagged : Bool → Event → Type 0
Flagged migrate (Clusters.vault_unseal x key flag) = flag ≡ migrate
Flagged migrate _ = Unit {0}

-- Every event between the two histories that unseals has the flag.
pub data Unsealing (migrate : Bool) (h : List Event) : List Event → Type 0 where
  same : Unsealing migrate h h
  later :
      {h' : List Event} (e : Event)
      → Flagged migrate e
      → Unsealing migrate h h'
      → Unsealing migrate h (e ∷ h')

-- A method unseals with the flag only, also when it fails.
pub record Unseals {A : Type 0} (migrate : Bool) (m : Vaults A) : Type 0 where
  pub after : (h : List Event) (s : State) → Unsealing migrate h s.1 → Unsealing migrate h (m s).1.1

pub ending_Unsealing :
    {A : Type 0} (migrate : Bool) (m : Vaults A) (h : List Event) (s s' : State) (r : Result A)
    → Unseals migrate m
    → m s ≡ (r, s')
    → Unsealing migrate h s.1
    → Unsealing migrate h s'.1
ending_Unsealing {A} migrate m h s s' r u e p =
    subst (λ (q : Result A × State). Unsealing migrate h q.1.1) e (u.after h s p)

bind-Unseals :
    {A B : Type 0} (migrate : Bool) (m : Vaults A) (f : A → Vaults B)
    → Unseals migrate m
    → ((a : A) → Unseals migrate (f a))
    → Unseals migrate (m >>= f)
bind-Unseals migrate m f p q = record {
  after =
      λ h. bind-keeps (λ (s : State). Unsealing migrate h s.1) m f (p.after h) (λ a. (q a).after h);
}

silent-Unseals :
    {A : Type 0} (migrate : Bool) (m : Vaults A)
    → ((s : State) → (m s).1.1 ≡ s.1)
    → Unseals migrate m
silent-Unseals migrate m q = record {
  after = λ h s u. subst (λ (t : List Event). Unsealing migrate h t) (sym (q s)) u;
}

one-Unseals :
    {A : Type 0} (migrate : Bool) (m : Vaults A)
    → ((s : State) → (e : Event) × (Flagged migrate e) × ((m s).1.1 ≡ e ∷ s.1))
    → Unseals migrate m
one-Unseals migrate m q = record {
  after = λ h s u.
      let (e, flag, next) = q s in
      subst (λ (t : List Event). Unsealing migrate h t) (sym next) (later e flag u);
}

-- A test of a condition.
either-Unseals :
    {A : Type 0} (migrate b : Bool) (m n : Vaults A)
    → Unseals migrate m
    → Unseals migrate n
    → Unseals migrate (if b then m else n)
either-Unseals migrate true m n p q = p
either-Unseals migrate false m n p q = q

-- A read of the cluster, then more.
read-Unseals :
    {A B : Type 0} (migrate : Bool) (f : VaultCluster → A) (k : A → Vaults B)
    → ((a : A) → Unseals migrate (k a))
    → Unseals migrate (reading f >>= k)
read-Unseals migrate f k q =
    bind-Unseals migrate (reading f) k (silent-Unseals migrate (reading f) (λ s. refl)) q

unseal_until-Unseals :
    (w : VaultWorld) (x : Harness) (migrate : Bool) (rounds : ℕ) (last : Option Error)
    → Unseals migrate (unseal_until w x migrate rounds last)
unfolding unseal_until
unseal_until-Unseals w x migrate zero last = silent-Unseals migrate _ (λ s. refl)
unseal_until-Unseals w x migrate (suc rounds) last =
    read-Unseals migrate (λ (c : VaultCluster). c.unseal_keys) _
      λ keys.
        bind-Unseals migrate (lift (nth keys 0)) _ (silent-Unseals migrate _ (λ s. refl)) λ key.
          bind-Unseals migrate (calling (ask_unseal w x key migrate)) _
            (one-Unseals migrate _ (λ s. (Clusters.vault_unseal x key migrate, refl, refl)))
            λ answer.
              elim answer
                as (λ (a : Option Error).
                  Unseals {A = Unit {0}} migrate (elim a [
                    | none ↦ pure tt
                    | some e ↦ unseal_until w x migrate rounds (some e)
                  ])) [
                    | none ↦ silent-Unseals migrate (pure tt) (λ s. refl)
                    | some e ↦ unseal_until-Unseals w x migrate rounds (some e)
                  ]

stop_at-Unseals : (w : VaultWorld) (migrate : Bool) (idx : ℕ) → Unseals migrate (stop_at w idx)
unfolding stop_at
stop_at-Unseals w migrate idx =
    read-Unseals migrate (λ (c : VaultCluster). c.servers) _
      λ servers.
        bind-Unseals migrate (lift (nth servers idx)) _ (silent-Unseals migrate _ (λ s. refl))
          λ old.
            one-Unseals migrate (calling (call (Clusters.stop old) (w.stop old)))
              (λ s. (Clusters.stop old, tt, refl))

start_vault-Unseals :
    (w : VaultWorld) (migrate : Bool) (node : Node) (addr : String) (has_ca : Bool) (multiplier : ℕ)
    → Unseals migrate (start_vault w node addr has_ca multiplier)
unfolding start_vault cluster_tls
start_vault-Unseals w migrate node addr has_ca multiplier =
    bind-Unseals migrate (calling (cluster_tls w.world has_ca Clusters.vault)) _ tls-Unseals λ tls.
      read-Unseals migrate (λ (c : VaultCluster). vault_config c addr tls multiplier) _
        λ config.
          one-Unseals migrate
            (calling (
              call (Clusters.run (Command.vault config) node)
                (w.world.run (Command.vault config) node)))
            (λ s. (Clusters.run (Command.vault config) node, tt, refl))
  where
    tls-Unseals : Unseals migrate (calling (cluster_tls w.world has_ca Clusters.vault))
    tls-Unseals =
        elim has_ca
          as (λ (b : Bool).
            Unseals {A = Option TlsConfigPem} migrate
              (calling (cluster_tls w.world b Clusters.vault))) [
                | false ↦
                    silent-Unseals migrate (calling (cluster_tls w.world false Clusters.vault))
                      (λ s. refl)
                | true ↦
                    one-Unseals migrate (calling (cluster_tls w.world true Clusters.vault))
                      (λ s. (Clusters.server_tls Clusters.vault, tt, ground arith))
              ]

put_server-Unseals :
    (w : VaultWorld) (idx : ℕ) (migrate : Bool) (x : Harness)
    → Unseals migrate (put_server w idx migrate x)
unfolding put_server
put_server-Unseals w idx migrate x =
    bind-Unseals migrate (change (with_server_at idx x)) _ (silent-Unseals migrate _ (λ s. refl))
      λ _.
        bind-Unseals migrate (calling (call (Clusters.vault_client x) (w.client x))) _
          (one-Unseals migrate _ (λ s. (Clusters.vault_client x, tt, refl)))
          λ _.
            bind-Unseals migrate (λ (s : State). (ok (w.rounds s.1), s)) _
              (silent-Unseals migrate _ (λ s. refl))
              λ rounds. unseal_until-Unseals w x migrate rounds none

replace_node-Unseals :
    (w : VaultWorld) (idx : ℕ) (has_ca migrate : Bool)
    → Unseals migrate (replace_node w idx has_ca migrate)
unfolding replace_node
replace_node-Unseals w idx has_ca migrate =
    bind-Unseals migrate (stop_at w idx) _ (stop_at-Unseals w migrate idx) λ _.
      read-Unseals migrate (λ (c : VaultCluster). c) _
        λ c.
          bind-Unseals migrate (lift (nth c.nodes idx)) _ (silent-Unseals migrate _ (λ s. refl))
            λ node.
              bind-Unseals migrate (start_vault w node (consul_addr_of c.consul_addrs idx) has_ca 3)
                _ (start_vault-Unseals w migrate node (consul_addr_of c.consul_addrs idx) has_ca 3)
                λ x. put_server-Unseals w idx migrate x

autopilot-Unseals : (w : VaultWorld) (migrate : Bool) → Unseals migrate (autopilot_if_raft w)
unfolding autopilot_if_raft ask_autopilot
autopilot-Unseals w migrate =
    read-Unseals migrate (λ (c : VaultCluster). c.consul_addrs) _
      λ addrs.
        either-Unseals migrate (is_empty addrs) (ask_autopilot w) (pure tt)
          (one-Unseals migrate (ask_autopilot w)
            (λ s. (Clusters.autopilot_healthy s.0.servers s.0.root_token, tt, refl)))
          (silent-Unseals migrate (pure tt) (λ s. refl))

pub replace_one-Unseals :
    (w : VaultWorld) (idx : ℕ) (migrate : Bool) → Unseals migrate (replace_one w idx migrate)
unfolding replace_one
replace_one-Unseals w idx migrate =
    bind-Unseals migrate (replace_node w idx false migrate) _
      (replace_node-Unseals w idx false migrate) λ _. autopilot-Unseals w migrate

pub replace_others-Unseals :
    (w : VaultWorld) (migrate : Bool) (leader rounds i : ℕ)
    → Unseals migrate (replace_others w migrate leader rounds i)
unfolding replace_others
replace_others-Unseals w migrate leader zero i = silent-Unseals migrate (pure tt) (λ s. refl)
replace_others-Unseals w migrate leader (suc rounds) i =
    either-Unseals migrate (i == leader) (replace_others w migrate leader rounds (i + 1)) _
      (replace_others-Unseals w migrate leader rounds (i + 1))
      (bind-Unseals migrate (replace_one w i migrate) _ (replace_one-Unseals w i migrate)
        (λ _. replace_others-Unseals w migrate leader rounds (i + 1)))

pub wait_leader-Unseals :
    (w : VaultWorld) (migrate : Bool) (rounds : ℕ) → Unseals migrate (wait_leader w rounds)
unfolding wait_leader
wait_leader-Unseals w migrate zero = silent-Unseals migrate (pure tt) (λ s. refl)
wait_leader-Unseals w migrate (suc rounds) =
    read-Unseals migrate (λ (c : VaultCluster). c.servers) _
      λ servers.
        bind-Unseals migrate (calling (ask_leader w servers)) _
          (one-Unseals migrate _ (λ s. (Clusters.vault_leader servers, tt, refl)))
          λ leader.
            either-Unseals migrate (is_named leader) (pure tt) (wait_leader w rounds)
              (silent-Unseals migrate (pure tt) (λ s. refl)) (wait_leader-Unseals w migrate rounds)
