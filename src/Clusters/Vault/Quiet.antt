-- ===== src/Clusters/Vault/Quiet.antt =====
-- cluster/cluster.go, `NewVaultCluster`: the steps that start and stop no server.
use yurt.Prelude.{◌≡◌, refl, ◌∙◌, ℕ, zero, suc, String, Bool, List, arith}
use mathlib.Core.Path.{subst}
use yurt.Effects.{Result}
use yurt.Effects.Methods.{◌>>=◌, bind-keeps}
use yurt.Types.{Node}
use yurt.Clusters.{Event, cluster_tls}
use yurt.Clusters.Consul.Allocating.{started, stopped}
use yurt.Clusters.Vault.{
  VaultCluster, VaultWorld, Vaults, start_vault, alloc_one, alloc_nodes, reading,
}

abbrev pub State : Type 0
State = VaultCluster × List Event

-- The cluster has the same servers, and nothing was started or stopped.
abbrev pub Same : State → State → Type 0
Same s t = (t.0.servers ≡ s.0.servers) × (started t.1 ≡ started s.1) × (stopped t.1 ≡ stopped s.1)

pub Same-trans : (s t u : State) → Same s t → Same t u → Same s u
Same-trans s t u p q = (q.0 ∙ p.0, q.1 ∙ p.1, q.2 ∙ p.2)

pub record IsQuiet {A : Type 0} (m : Vaults A) : Type 0 where
  pub same : (s : State) → Same s (m s).1

pub bind-IsQuiet :
    {A B : Type 0} (m : Vaults A) (f : A → Vaults B)
    → IsQuiet m
    → ((a : A) → IsQuiet (f a))
    → IsQuiet (m >>= f)
bind-IsQuiet m f p q = record {
  same = λ s.
      bind-keeps (Same s) m f (λ t k. Same-trans s t (m t).1 k (p.same t))
        (λ a t k. Same-trans s t (f a t).1 k ((q a).same t)) s (refl, refl, refl);
}

-- A read of the cluster, then more.
pub read-IsQuiet :
    {A B : Type 0} (f : VaultCluster → A) (k : A → Vaults B)
    → ((a : A) → IsQuiet (k a))
    → IsQuiet (reading f >>= k)
read-IsQuiet f k q = bind-IsQuiet (reading f) k (record { same = λ s. (refl, refl, refl) }) q

pub ending_Same :
    {A : Type 0} (m : Vaults A) (s s' : State) (r : Result A)
    → IsQuiet m
    → m s ≡ (r, s')
    → Same s s'
ending_Same {A} m s s' r p e = subst (λ (q : Result A × State). Same s q.1) e (p.same s)

pub start_vault-IsQuiet :
    (w : VaultWorld) (node : Node) (addr : String) (has_ca : Bool) (multiplier : ℕ)
    → IsQuiet (start_vault w node addr has_ca multiplier)
unfolding start_vault cluster_tls
start_vault-IsQuiet w node addr has_ca multiplier = record { same = λ s. ground arith }

alloc_one-IsQuiet :
    (w : VaultWorld) (name : String) (nodes : List Node) → IsQuiet (alloc_one w name nodes)
unfolding alloc_one
alloc_one-IsQuiet w name nodes = record { same = λ s. ground arith }

pub alloc_nodes-IsQuiet :
    (w : VaultWorld) (name : String) (count : ℕ) (nodes : List Node)
    → IsQuiet (alloc_nodes w name count nodes)
unfolding alloc_nodes
alloc_nodes-IsQuiet w name zero nodes = record { same = λ s. (refl, refl, refl) }
alloc_nodes-IsQuiet w name (suc count) nodes =
    bind-IsQuiet (alloc_one w name nodes) (alloc_nodes w name count)
      (alloc_one-IsQuiet w name nodes) (λ a. alloc_nodes-IsQuiet w name count a)
