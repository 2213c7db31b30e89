-- ===== src/Clusters/Vault/Failures.antt =====
-- cluster/cluster.go: what a failed `NewVaultCluster` leaves running.
use yurt.Prelude.{
  ◌≡◌, refl, ◌∙◌, ap, sym, ℕ, zero, suc, ◌+◌, ◌-◌, String, Bool, true, false, ◌||◌, List, [], ◌∷◌,
  Option, arith,
}
use yurt.Effects.{Error, Result, ok, err}
use yurt.Effects.Methods.{lift, calling, reading, change, ◌>>=◌, ◌>>◌, bind-keeps}
use yurt.Types.{Node}
use yurt.Commands.Vault.{Seal}
use yurt.Clusters.{Event, Harness, note, watch}
use yurt.Clusters.Consul.Allocating.{started, stopped}
use yurt.Clusters.Nomad.Stopping.{listed, listed-append, stop_each_lem}
use yurt.Clusters.Vault.{
  VaultWorld, Vaults, nth, consul_addr_of, start_vault, with_server, add_node, alloc_nodes,
  client_status, join,
}
use yurt.Clusters.Vault.Joining.{Group, joined, yield, join_rest, wait_all}
use yurt.Clusters.Vault.Creating.{
  initialize_first, unseal_first, join_others, check, create, with_nodes, is_panic, or_stop,
  no_servers, new_vault_cluster,
}
use yurt.Clusters.Vault.Idle.{
  IsIdle-IsQuiet, client_status-IsIdle, yield-IsIdle, wait_all-IsIdle, initialize_first-IsIdle,
  unseal_first-IsIdle, check-IsIdle,
}
use yurt.Clusters.Vault.Quiet.{State, Same, IsQuiet, start_vault-IsQuiet, alloc_nodes-IsQuiet}

-- The cluster knows each server that was started since `h`, and none was stopped since.
abbrev pub Known : List Event → State → Type 0
Known h s =
    ((x : Harness)
      → listed (started s.1) x ≡ true
      → (listed (started h) x || listed s.0.servers x) ≡ true)
    × (stopped s.1 ≡ stopped h)

-- A method keeps the knowledge, also when it fails.
pub record Keeps {A : Type 0} (m : Vaults A) : Type 0 where
  pub after : (h : List Event) (s : State) → Known h s → Known h (m s).1

Same-Known : (h : List Event) (s t : State) → Same s t → Known h s → Known h t
Same-Known h s t same k = (
  λ x p.
      ap (λ (l : List Harness). listed (started h) x || listed l x) same.0
      ∙ k.0 x (ap (λ (l : List Harness). listed l x) (sym same.1) ∙ p),
  same.2 ∙ k.1,
)

IsQuiet-Keeps : {A : Type 0} (m : Vaults A) → IsQuiet m → Keeps m
IsQuiet-Keeps m q = record { after = λ h s. Same-Known h s (m s).1 (q.same s) }

bind-Keeps :
    {A B : Type 0} (m : Vaults A) (f : A → Vaults B)
    → Keeps m
    → ((a : A) → Keeps (f a))
    → Keeps (m >>= f)
bind-Keeps m f p q = record {
  after = λ h. bind-keeps (Known h) m f (p.after h) (λ a. (q a).after h);
}

bind_IsQuiet-Keeps :
    {A B : Type 0} (m : Vaults A) (f : A → Vaults B)
    → IsQuiet m
    → ((a : A) → Keeps (f a))
    → Keeps (m >>= f)
bind_IsQuiet-Keeps m f q = bind-Keeps m f (IsQuiet-Keeps m q)

-- A new server, and the wait for its end.
appended-Keeps : (x : Harness) → Keeps (change (with_server x) >> calling (note (watch x)))
appended-Keeps x = record {
  after = λ h s k. (λ y p. ground (arith, k.0 y, listed-append s.0.servers (x ∷ []) y), k.1);
}

add_node-Keeps :
    (w : VaultWorld) (node : Node) (addr : String) (has_ca : Bool) (multiplier : ℕ)
    → Keeps (add_node w node addr has_ca multiplier)
unfolding add_node
add_node-Keeps w node addr has_ca multiplier =
    bind_IsQuiet-Keeps (start_vault w node addr has_ca multiplier) _
      (start_vault-IsQuiet w node addr has_ca multiplier) appended-Keeps

join-Keeps :
    (w : VaultWorld) (nodes : List Node) (has_ca : Bool) (multiplier i : ℕ)
    → Keeps (join w nodes has_ca multiplier i)
unfolding join
join-Keeps w nodes has_ca multiplier i =
    bind_IsQuiet-Keeps (lift (nth nodes i)) _ (record { same = λ s. (refl, refl, refl) })
      λ node.
        bind_IsQuiet-Keeps (reading (λ c. c.consul_addrs)) _
          (record { same = λ s. (refl, refl, refl) })
          λ addrs.
            bind-Keeps (add_node w node (consul_addr_of addrs i) has_ca multiplier) _
              (add_node-Keeps w node (consul_addr_of addrs i) has_ca multiplier)
              λ done. IsQuiet-Keeps (client_status w i) (IsIdle-IsQuiet (client_status-IsIdle w i))

join_rest-Keeps :
    (w : VaultWorld) (nodes : List Node) (has_ca : Bool) (multiplier rounds i : ℕ) (g : Group)
    → Keeps (join_rest w nodes has_ca multiplier rounds i g)
unfolding join_rest
join_rest-Keeps w nodes has_ca multiplier zero i g = record { after = λ h s k. k }
join_rest-Keeps w nodes has_ca multiplier (suc rounds) i g =
    bind-Keeps (join w nodes has_ca multiplier i) _ (join-Keeps w nodes has_ca multiplier i)
      (λ server.
        bind_IsQuiet-Keeps (yield w (joined i g server)) _
          (IsIdle-IsQuiet (yield-IsIdle w (joined i g server)))
          (λ g'. join_rest-Keeps w nodes has_ca multiplier rounds (i + 1) g'))

join_others-Keeps :
    (w : VaultWorld) (nodes : List Node) (has_ca : Bool) (multiplier others : ℕ) (x : Harness)
    → Keeps (join_others w nodes has_ca multiplier others x)
unfolding join_others
join_others-Keeps w nodes has_ca multiplier zero x = record { after = λ h s k. k }
join_others-Keeps w nodes has_ca multiplier (suc others) x =
    bind-Keeps (join_rest w nodes has_ca multiplier (suc others) 1 _) (wait_all w)
      (join_rest-Keeps w nodes has_ca multiplier (suc others) 1 _)
      (λ g. IsQuiet-Keeps (wait_all w g) (IsIdle-IsQuiet (wait_all-IsIdle w g)))

create-Keeps :
    (w : VaultWorld) (has_ca : Bool) (name : String) (count multiplier : ℕ)
    → Keeps (create w has_ca name count multiplier)
unfolding create
create-Keeps w has_ca name count multiplier =
    bind_IsQuiet-Keeps (alloc_nodes w name count []) _ (alloc_nodes-IsQuiet w name count [])
      λ nodes.
        bind-Keeps (join w nodes has_ca multiplier 0) _ (join-Keeps w nodes has_ca multiplier 0)
          λ first.
            bind_IsQuiet-Keeps (initialize_first w first) _
              (IsIdle-IsQuiet (initialize_first-IsIdle w first))
              λ _.
                bind_IsQuiet-Keeps (unseal_first w first) _
                  (IsIdle-IsQuiet (unseal_first-IsIdle w first))
                  λ _.
                    bind-Keeps (join_others w nodes has_ca multiplier (count - 1) first.0) _
                      (join_others-Keeps w nodes has_ca multiplier (count - 1) first.0)
                      λ _. bind_IsQuiet-Keeps (check w) _ (IsIdle-IsQuiet (check-IsIdle w)) λ _.
                        IsQuiet-Keeps (change (with_nodes nodes))
                          (record { same = λ s. (refl, refl, refl) })

-- Each server that was started between the two histories was stopped.
abbrev pub StoppedSince : List Event → List Event → Type 0
StoppedSince h h' =
    (x : Harness)
    → listed (started h') x ≡ true
    → (listed (started h) x || listed (stopped h') x) ≡ true

or_stop_err :
    (r : Result (Unit {0}) × State) (h h' : List Event) (e : Error)
    → Known h r.1
    → or_stop r ≡ (err e, h')
    → is_panic e ≡ false
    → StoppedSince h h'
unfolding or_stop
or_stop_err (ok _, s) h h' e k p q x new = absurd (ground arith)
or_stop_err (err e', s) h h' e k p q x new = ground (arith, k.0 x, stop_each_lem s.0.servers s.1 x)

or_stop_panic :
    (r : Result (Unit {0}) × State) (h h' : List Event) (e : Error)
    → Known h r.1
    → or_stop r ≡ (err e, h')
    → is_panic e ≡ true
    → stopped h' ≡ stopped h
unfolding or_stop
or_stop_panic (ok _, s) h h' e k p q = absurd (ground arith)
or_stop_panic (err e', s) h h' e k p q = ground (arith, k.1)

-- When the creation of a Vault cluster fails with an error, every server that was started since
-- `h` was stopped. When it panics instead, no server at all was stopped.
pub new_vault_cluster_failed :
    (w : VaultWorld) (has_ca : Bool) (name : String) (count : ℕ) (addrs : List String)
    (seal : Option Seal) (multiplier : ℕ) (h h' : List Event) (e : Error)
    → new_vault_cluster w has_ca name count addrs seal multiplier h ≡ (err e, h')
    → (is_panic e ≡ false → StoppedSince h h') × (is_panic e ≡ true → stopped h' ≡ stopped h)
unfolding new_vault_cluster
new_vault_cluster_failed w has_ca name count addrs seal multiplier h h' e p =
    (or_stop_err _ h h' e known p, or_stop_panic _ h h' e known p)
  where
    known : Known h (create w has_ca name count multiplier (no_servers addrs seal, h)).1
    known =
        (create-Keeps w has_ca name count multiplier).after h (no_servers addrs seal, h)
          (λ x new. ground arith, refl)
