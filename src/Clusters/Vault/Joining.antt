-- ===== src/Clusters/Vault/Joining.antt =====
-- cluster/cluster.go, `NewVaultCluster`: the further servers, each unsealed by a goroutine. The
-- goroutines read and write the variables `client` and `err` of the function, so that a step of one
-- acts on what the others and the loop have left there.
use yurt.Prelude.{
  if◌then◌else◌, ℕ, zero, suc, ◌+◌, ◌==◌, Bool, true, false, List, [], ◌∷◌, ◌++◌, Option, none,
  some, String,
}
use yurt.Effects.{Error, Result, ok, err, wrapped}
use yurt.Effects.Calls.{Exec}
use yurt.Effects.Methods.{pure, lift, calling, reading, ◌>>=◌}
use yurt.Types.{Node}
use yurt.Sealing.{SealStatus}
use yurt.Clusters.{Event, Harness}
use yurt.Clusters
use yurt.Clusters.Vault.{VaultWorld, Vaults, Turn, attempt, expire, nth, join}

-- `last_error` is `err`; `waiting` are the goroutines that have not returned, by their node, and
-- `failed` is the first error that one has returned.
pub record Group : Type 0 where
  pub client : Harness
  pub last_error : Option Error
  pub waiting : List ℕ
  pub failed : Option Error

unfoldable pub is_waiting : ℕ → List ℕ → Bool
is_waiting i [] = false
is_waiting i (x ∷ l) = let rest = is_waiting i l in if x == i then true else rest

unfoldable pub remove : ℕ → List ℕ → List ℕ
remove i [] = []
remove i (x ∷ l) = let rest = remove i l in if x == i then rest else x ∷ rest

-- A call of `vault.Unseal`, which answers an error or nil.
abbrev pub ask_unseal : VaultWorld → Harness → String → Bool → Exec Event (Option Error)
ask_unseal w server key migrate h =
    (ok (w.unseal server key migrate h), Clusters.vault_unseal server key migrate ∷ h)

abbrev pub after_unseal : ℕ → Group → Option Error → Group
after_unseal i g none = record g { last_error = none; waiting = remove i g.waiting }
after_unseal i g (some e) = record g { last_error = some e }

-- `err = vault.Unseal(gctx, client, cluster.unsealKeys[0], false)`; the goroutine returns if there
-- is no error.
unfoldable pub try_unseal : VaultWorld → ℕ → Group → Vaults Group
try_unseal w i g = do
  keys ← reading (λ c. c.unseal_keys)
  key ← lift (nth keys 0)
  answer ← calling (ask_unseal w g.client key false)
  pure (after_unseal i g answer)

-- `errors.Wrap(err, gctx.Err().Error())`, which is nil when `err` is nil
abbrev pub wrap : String → Option Error → Option Error
wrap text none = none
wrap text (some e) = some (wrapped text e)

abbrev pub first_error : Option Error → Option Error → Option Error
first_error (some e) f = some e
first_error none f = f

unfoldable pub give_up : VaultWorld → ℕ → Group → Group
give_up w i g = record g {
  waiting = remove i g.waiting;
  failed = first_error g.failed (wrap w.ended g.last_error);
}

-- A step of a goroutine that has returned is no step.
unfoldable pub take_turn : VaultWorld → Group → Turn → Vaults Group
take_turn w g (attempt i) = if is_waiting i g.waiting then try_unseal w i g else pure g
take_turn w g (expire i) = pure (if is_waiting i g.waiting then give_up w i g else g)

unfoldable pub take_turns : VaultWorld → List Turn → Group → Vaults Group
take_turns w [] g = pure g
take_turns w (t ∷ turns) g = take_turn w g t >>= take_turns w turns

-- The steps that the goroutines take before the next step of the loop.
unfoldable pub yield : VaultWorld → Group → Vaults Group
yield w g s = take_turns w (w.turns s.1) g s

-- `client, status, err = addNode(i)` and `if status.Sealed { g.Go(…) }`
abbrev pub joined : ℕ → Group → Harness × SealStatus → Group
joined i g (server, status) = record g {
  client = server;
  last_error = none;
  waiting = if status.sealed then g.waiting ++ (i ∷ []) else g.waiting;
}

-- The loop from node i, for the rounds that are left.
unfoldable pub join_rest : VaultWorld → List Node → Bool → ℕ → ℕ → ℕ → Group → Vaults Group
join_rest w nodes has_ca multiplier zero i g = pure g
join_rest w nodes has_ca multiplier (suc rounds) i g = do
  server ← join w nodes has_ca multiplier i
  g ← yield w (joined i g server)
  join_rest w nodes has_ca multiplier rounds (i + 1) g

-- The context has ended for all that still wait.
unfoldable pub give_up_all : VaultWorld → List ℕ → Group → Group
give_up_all w [] g = g
give_up_all w (i ∷ waiting) g = give_up_all w waiting (give_up w i g)

abbrev pub outcome : Option Error → Result (Unit {0})
outcome none = ok tt
outcome (some e) = err e

-- `err = g.Wait()`
unfoldable pub wait_all : VaultWorld → Group → Vaults (Unit {0})
wait_all w g = do g ← yield w g; lift (outcome (give_up_all w g.waiting g).failed)
