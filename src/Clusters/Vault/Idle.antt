-- ===== src/Clusters/Vault/Idle.antt =====
-- cluster/cluster.go, `NewVaultCluster`: the steps that run nothing and leave the settings alone.
use yurt.Prelude.{◌≡◌, refl, ◌∙◌, ℕ, Bool, false, List, [], ◌∷◌, arith}
use mathlib.Core.Path.{subst}
use yurt.Effects.{Result}
use yurt.Effects.Methods.{◌>>=◌, bind-keeps}
use yurt.Types.{Node}
use yurt.Sealing.{SealStatus}
use yurt.Clusters.{Event, Harness, cluster_tls, Command}
use yurt.Clusters
use yurt.Clusters.Vault.Quiet.{State, Same, Same-trans, IsQuiet}
use yurt.Clusters.Vault.{VaultCluster, VaultWorld, Vaults, Turn, attempt, expire, client_status}
use yurt.Clusters.Vault.Joining.{Group, try_unseal, take_turn, take_turns, yield, wait_all}
use yurt.Clusters.Vault.Creating.{initialize_first, unseal_once, unseal_first, ask_autopilot, check}

-- The programs that were run, with their nodes, the newest first.
abbrev pub runs : List Event → List (Command × Node)
runs [] = []
runs (Clusters.run command node ∷ h) = (command, node) ∷ runs h
runs (_ ∷ h) = runs h

-- What the configuration of a server is made from.
abbrev pub SameSettings : VaultCluster → VaultCluster → Type 0
SameSettings c d =
    (d.join_addrs ≡ c.join_addrs)
    × (d.consul_addrs ≡ c.consul_addrs)
    × (d.seal ≡ c.seal)
    × (d.old_seal ≡ c.old_seal)

abbrev pub Idle : State → State → Type 0
Idle s t = Same s t × (runs t.1 ≡ runs s.1) × SameSettings s.0 t.0

Idle-refl : (s : State) → Idle s s
Idle-refl s = ((refl, refl, refl), refl, (refl, refl, refl, refl))

Idle-trans : (s t u : State) → Idle s t → Idle t u → Idle s u
Idle-trans s t u p q = (Same-trans s t u p.0 q.0, q.1 ∙ p.1, ground arith)

pub record IsIdle {A : Type 0} (m : Vaults A) : Type 0 where
  pub idle : (s : State) → Idle s (m s).1

pub IsIdle-IsQuiet : {A : Type 0} {m : Vaults A} → IsIdle m → IsQuiet m
IsIdle-IsQuiet p = record { same = λ s. (p.idle s).0 }

bind-IsIdle :
    {A B : Type 0} (m : Vaults A) (f : A → Vaults B)
    → IsIdle m
    → ((a : A) → IsIdle (f a))
    → IsIdle (m >>= f)
bind-IsIdle m f p q = record {
  idle = λ s.
      bind-keeps (Idle s) m f (λ t k. Idle-trans s t (m t).1 k (p.idle t))
        (λ a t k. Idle-trans s t (f a t).1 k ((q a).idle t)) s (Idle-refl s);
}

pub client_status-IsIdle : (w : VaultWorld) (i : ℕ) → IsIdle (client_status w i)
unfolding client_status
client_status-IsIdle w i = record { idle = λ s. ground arith }

take_turn-IsIdle : (w : VaultWorld) (g : Group) (t : Turn) → IsIdle (take_turn w g t)
unfolding take_turn try_unseal
take_turn-IsIdle w g (attempt i) = record { idle = λ s. ground arith }
take_turn-IsIdle w g (expire i) = record { idle = λ s. ground arith }

take_turns-IsIdle : (w : VaultWorld) (turns : List Turn) (g : Group) → IsIdle (take_turns w turns g)
unfolding take_turns
take_turns-IsIdle w [] g = record { idle = λ s. Idle-refl s }
take_turns-IsIdle w (t ∷ turns) g =
    bind-IsIdle (take_turn w g t) (take_turns w turns) (take_turn-IsIdle w g t)
      (λ a. take_turns-IsIdle w turns a)

pub yield-IsIdle : (w : VaultWorld) (g : Group) → IsIdle (yield w g)
unfolding yield
yield-IsIdle w g = record { idle = λ s. (take_turns-IsIdle w (w.turns s.1) g).idle s }

pub wait_all-IsIdle : (w : VaultWorld) (g : Group) → IsIdle (wait_all w g)
unfolding wait_all
wait_all-IsIdle w g =
    bind-IsIdle (yield w g) _ (yield-IsIdle w g) (λ a. record { idle = λ s. Idle-refl s })

pub initialize_first-IsIdle :
    (w : VaultWorld) (first : Harness × SealStatus) → IsIdle (initialize_first w first)
unfolding initialize_first
initialize_first-IsIdle w first = record { idle = λ s. ground arith }

unseal_once-IsIdle :
    (w : VaultWorld) (server : Harness) (migrate : Bool) → IsIdle (unseal_once w server migrate)
unfolding unseal_once
unseal_once-IsIdle w server migrate = record { idle = λ s. ground arith }

pub unseal_first-IsIdle :
    (w : VaultWorld) (first : Harness × SealStatus) → IsIdle (unseal_first w first)
unfolding unseal_first
unseal_first-IsIdle w first = record {
  idle = λ s. ground (arith, (unseal_once-IsIdle w first.0 false).idle s);
}

pub check-IsIdle : (w : VaultWorld) → IsIdle (check w)
unfolding check ask_autopilot
check-IsIdle w = record { idle = λ s. ground arith }

pub ending_Idle :
    {A : Type 0} (m : Vaults A) (s s' : State) (r : Result A) → IsIdle m → m s ≡ (r, s') → Idle s s'
ending_Idle {A} m s s' r p e = subst (λ (q : Result A × State). Idle s q.1) e (p.idle s)
