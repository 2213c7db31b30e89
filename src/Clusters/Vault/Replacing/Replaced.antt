-- ===== src/Clusters/Vault/Replacing/Replaced.antt =====
-- cluster/cluster.go: the order in which `ReplaceAllActiveLast` replaces the servers.
use yurt.Prelude.{if◌then◌else◌, ◌≡◌, ℕ, ◌+◌, ◌==◌, Bool, false, List, [], ◌∷◌}
use yurt.Effects.{ok}
use yurt.Clusters.{Event, Harness}
use yurt.Clusters
use yurt.Clusters.Consul.Allocating.{stopped}
use yurt.Clusters.Consul.Started.{newest_first}
use yurt.Clusters.Vault.{VaultWorld, nth}
use yurt.Clusters.Vault.Quiet.{State}
use yurt.Clusters.Vault.Replacing.{leader_number}
use yurt.Clusters.Vault.Replacing.Migrating.{Unsealing}

-- The servers from number i, without that of number `leader`.
abbrev pub others : ℕ → ℕ → List Harness → List Harness
others leader i [] = []
others leader i (x ∷ servers) =
    let rest = others leader (i + 1) servers in if i == leader then rest else x ∷ rest

-- The servers from number i are those of the list.
abbrev From : ℕ → List Harness → List Harness → Type 0
From i all servers = (k : ℕ) → nth all (i + k) ≡ nth servers k

-- What the loop leaves.
record Looped (leader i : ℕ) (servers : List Harness) (s s' : State) : Type 0 where
  stops : stopped s'.1 ≡ newest_first (others leader i servers) (stopped s.1)
  leader_stays : nth s'.0.servers leader ≡ nth s.0.servers leader

-- Server number `leader`, which the search found, was stopped after all others, which were stopped
-- in their order; what was unsealed before it was asked to step down has the flag, and nothing that
-- was unsealed after that.
abbrev pub LeaderLast : VaultWorld → Bool → State → State → Type 0
LeaderLast w migrate s s' =
    (leader : ℕ) × (x : Harness) × (s1 : State) × (h : List Event) × (leader_number w s.0.servers s
      ≡ (ok leader, s1))
    × (nth s.0.servers leader ≡ ok x)
    × (stopped h ≡ newest_first (others leader 0 s.0.servers) (stopped s.1))
    × Unsealing migrate s1.1 h
    × (stopped s'.1 ≡ x ∷ stopped h)
    × Unsealing false (Clusters.step_down x ∷ h) s'.1
