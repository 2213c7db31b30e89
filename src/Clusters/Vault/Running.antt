-- ===== src/Clusters/Vault/Running.antt =====
-- cluster/cluster.go, `NewVaultCluster`: how the servers were run.
use yurt.Prelude.{
  ◌≡◌, refl, get_elem?, some, none, zero, eq_iff, ◌∙◌, ap, sym, ℕ, suc, String, List, [], ◌∷◌,
  Option, arith,
}
use yurt.Effects.{ok}
use yurt.Types.{Node, TlsConfigPem}
use yurt.Commands.Command.{Command}
use yurt.Commands.Vault.{VaultConfig, new_raft_config, new_consul_config}
use yurt.Clusters.Vault.{VaultCluster, nth, consul_addr_of, vault_config}
use yurt.Clusters.Vault.Idle.{SameSettings}

-- The address of the own Consul agent, or "" for integrated storage.
abbrev pub own_addr : List String → ℕ → String
own_addr addrs i = elim (get_elem? addrs i) [ some a ↦ a | none ↦ "" ]

-- The configuration has the seals of the cluster, and either the own Consul agent or all addresses
-- to join.
abbrev pub Configured : VaultCluster → ℕ → ℕ → VaultConfig → Type 0
Configured c multiplier i cfg =
    (cfg.seal ≡ c.seal)
    × (cfg.old_seal ≡ c.old_seal)
    × (cfg.consul_addr ≡ own_addr c.consul_addrs i)
    × (own_addr c.consul_addrs i ≡ ""
        → (cfg.join_addrs ≡ c.join_addrs) × (cfg.raft_perf_multiplier ≡ multiplier))

consul_addr_of_lem : (addrs : List String) (i : ℕ) → consul_addr_of addrs i ≡ own_addr addrs i
unfolding consul_addr_of
consul_addr_of_lem [] i = refl
consul_addr_of_lem (a ∷ addrs) zero = refl
consul_addr_of_lem (a ∷ addrs) (suc i) = consul_addr_of_lem addrs i

pub vault_config-Configured :
    (c : VaultCluster) (multiplier i : ℕ) (tls : Option TlsConfigPem)
    → Configured c multiplier i (vault_config c (consul_addr_of c.consul_addrs i) tls multiplier)
unfolding vault_config new_raft_config new_consul_config
vault_config-Configured c multiplier i tls = rw (consul_addr_of_lem c.consul_addrs i) (
  ground (arith),
  ground (arith),
  ground (arith, eq_iff (own_addr c.consul_addrs i) ""),
  λ e. ground (arith, eq_iff (own_addr c.consul_addrs i) ""),
)

-- The first i servers were run, each on its own node and with its own configuration.
pub data Runs (c : VaultCluster) (multiplier : ℕ) (nodes : List Node)
    (older : List (Command × Node)) : ℕ → List (Command × Node) → Type 0 where
  none_yet : Runs c multiplier nodes older 0 older
  one_more :
      {i : ℕ} {r : List (Command × Node)} (node : Node) (cfg : VaultConfig)
      → nth nodes i ≡ ok node
      → Configured c multiplier i cfg
      → Runs c multiplier nodes older i r
      → Runs c multiplier nodes older (suc i) ((Command.vault cfg, node) ∷ r)

Configured-same :
    (c d : VaultCluster) (multiplier i : ℕ) (cfg : VaultConfig)
    → SameSettings c d
    → Configured c multiplier i cfg
    → Configured d multiplier i cfg
Configured-same c d multiplier i cfg s k =
    let same = ap (λ (a : List String). own_addr a i) s.1 in
    (
      k.0 ∙ sym s.2,
      k.1 ∙ sym s.3,
      k.2 ∙ sym same,
      λ e. let (joins, multiplied) = k.3 (sym same ∙ e) in (joins ∙ sym s.0, multiplied),
    )

vault_config-same :
    (c d : VaultCluster) (addr : String) (tls : Option TlsConfigPem) (multiplier : ℕ)
    → SameSettings c d
    → vault_config d addr tls multiplier ≡ vault_config c addr tls multiplier
unfolding vault_config
vault_config-same c d addr tls multiplier s = ground arith

pub own_config-same :
    (c d : VaultCluster) (i : ℕ) (tls : Option TlsConfigPem) (multiplier : ℕ)
    → SameSettings c d
    → vault_config d (consul_addr_of d.consul_addrs i) tls multiplier
      ≡ vault_config c (consul_addr_of c.consul_addrs i) tls multiplier
own_config-same c d i tls multiplier s =
    ap (λ (a : List String). vault_config d (consul_addr_of a i) tls multiplier) s.1
    ∙ vault_config-same c d (consul_addr_of c.consul_addrs i) tls multiplier s

pub Runs-same :
    {c d : VaultCluster} {multiplier : ℕ} {nodes : List Node} {older r : List (Command × Node)}
    {i : ℕ}
    → SameSettings c d
    → Runs c multiplier nodes older i r
    → Runs d multiplier nodes older i r
Runs-same s none_yet = none_yet
Runs-same {c} {d} {multiplier} s (one_more {i} node cfg e k p) =
    one_more node cfg e (Configured-same c d multiplier i cfg s k) (Runs-same s p)
