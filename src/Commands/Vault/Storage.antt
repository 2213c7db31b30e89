-- ===== src/Commands/Vault/Storage.antt =====
-- vault/vault.go, `Files`: which settings the files of a Vault server depend on.
use yurt.Prelude.{
  ℕ, String, ◌≡◌, refl, ◌≢◌, none, some, List, [], ◌∷◌, lookup, insert, eq_iff, arith, str_eq,
  if◌then◌else◌, false,
}
use yurt.Runner.{is_positive}
use yurt.Commands.Vault.{
  VaultConfig, files, config_hcl, raft_config, storage_config, consul_config, vault_tls,
}

-- With a Consul address the files do not depend on the addresses to join nor on the raft
-- multiplier.
vault_files-consul :
    (vc : VaultConfig) (join_addrs : List String) (multiplier : ℕ)
    → vc.consul_addr ≢ ""
    → files (record vc { join_addrs = join_addrs; raft_perf_multiplier = multiplier }) ≡ files vc
unfolding files config_hcl storage_config consul_config
vault_files-consul vc join_addrs multiplier h = ground (arith, eq_iff vc.consul_addr "")

is_raft : (vc : VaultConfig) → vc.consul_addr ≡ "" → storage_config vc ≡ raft_config vc
unfolding storage_config
is_raft vc h = ground (arith, eq_iff vc.consul_addr "")

raft_path :
    (vc : VaultConfig) (path : String)
    → raft_config (record vc { consul_path = path }) ≡ raft_config vc
unfolding raft_config
raft_path vc path = refl

raft_single :
    (vc : VaultConfig) (addr : String)
    → raft_config (record vc { join_addrs = addr ∷ [] })
      ≡ raft_config (record vc { join_addrs = [] })
unfolding raft_config
raft_single vc addr = refl

raft_multiplier :
    (vc : VaultConfig) (m : ℕ)
    → is_positive m ≡ false
    → raft_config (record vc { raft_perf_multiplier = m })
      ≡ raft_config (record vc { raft_perf_multiplier = 1 })
unfolding raft_config
raft_multiplier vc m p = rw p

-- Without a Consul address the files do not depend on the Consul path, a single address to join is
-- the same as none, and a raft multiplier that is not positive is the same as 1.
vault_files-raft :
    (vc : VaultConfig) (path addr : String) (multiplier : ℕ)
    → vc.consul_addr ≡ ""
    → is_positive multiplier ≡ false
    → (files (record vc { consul_path = path }) ≡ files vc)
      × (files (record vc { join_addrs = addr ∷ [] }) ≡ files (record vc { join_addrs = [] }))
      × (files (record vc { raft_perf_multiplier = multiplier })
          ≡ files (record vc { raft_perf_multiplier = 1 }))
unfolding files config_hcl
vault_files-raft vc path addr multiplier h p = ground (
  arith,
  is_raft vc h,
  is_raft (record vc { consul_path = path }) h,
  is_raft (record vc { join_addrs = addr ∷ [] }) h,
  is_raft (record vc { join_addrs = [] }) h,
  is_raft (record vc { raft_perf_multiplier = multiplier }) h,
  is_raft (record vc { raft_perf_multiplier = 1 }) h,
  raft_path vc path,
  raft_single vc addr,
  raft_multiplier vc multiplier p,
)

-- The PEM files are written exactly for the texts that are set: the certificate and the key together
-- when there is a certificate, the CA on its own; vault.hcl is always there.
vault_files-tls :
    (vc : VaultConfig)
    → (lookup "vault.pem" (files vc)
        ≡ (if str_eq vc.common.tls.cert "" then none else some vc.common.tls.cert))
      × (lookup "vault-key.pem" (files vc)
          ≡ (if str_eq vc.common.tls.cert "" then none else some vc.common.tls.private_key))
      × (lookup "ca.pem" (files vc)
          ≡ (if str_eq vc.common.tls.ca "" then none else some vc.common.tls.ca))
      × (lookup "vault.hcl" (files vc) ≡ some (config_hcl vc))
unfolding files vault_tls lookup insert
vault_files-tls vc = ground arith
