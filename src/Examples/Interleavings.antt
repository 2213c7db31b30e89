-- ===== src/Examples/Interleavings.antt =====
-- vault/vault.go: runs of `AnyVault` with two servers.
use yurt.Prelude.{ℕ, ◌+◌, ◌*◌, ◌≤◌, ◌≡◌, refl, true, Option, none, some, arith}
use yurt.Effects.{Error, message}
use yurt.Sealing.AnyVault.{
  State, spawn, answer, succeed, init, spawned_one, answered, succeeded, Reach, Returned, moved,
  Step, again, expire, asking, done,
}
use yurt.Sealing.AnyVault.Calm.{CalmReach, start, later, Answered, any_vault-Answered}
use yurt.Sealing.AnyVault.Ending
use yurt.Sealing.AnyVault.Ending.{Run, any_vault_ends}
use yurt.Sealing.AnyVault.Race.{any_vault_race}

-- The second server is healthy, and the first one never answers.
data OneHealthy : ℕ → Option Error → Type 0 where
  second : OneHealthy 1 none

abbrev both_started : State
both_started = spawned_one (spawned_one init)

abbrev one_answered : State
one_answered = succeeded (answered both_started 1 none) 1

one_answered-CalmReach : CalmReach 2 OneHealthy one_answered
one_answered-CalmReach =
    later
      (later (later (later start (spawn (omega arith)) tt) (spawn (omega arith)) tt)
        (answer 1 none refl second) refl)
      (succeed 1 refl refl) refl

any_vault-Answered_example : Answered 2 OneHealthy
any_vault-Answered_example =
    any_vault-Answered 2 OneHealthy one_answered one_answered-CalmReach refl

-- No server is healthy.
data NoneHealthy : ℕ → Option Error → Type 0 where
  unhealthy : (j : ℕ) → NoneHealthy j (some (message "unhealthy"))

any_vault_race_example : (t : State) × Reach 3 NoneHealthy t × Returned 3 t × (t.success ≡ true)
any_vault_race_example =
    any_vault_race 3 NoneHealthy (message "unhealthy") (omega arith) (unhealthy 0)

-- The first server answers with an error and is asked again, until the context ends.
abbrev retried : State
retried = moved (moved (answered (spawned_one init) 0 (some (message "unhealthy"))) 0 asking) 0 done

retried-Run : Run 1 NoneHealthy 4 1 retried
retried-Run =
    Ending.later
      (Ending.later
        (Ending.later (Ending.later Ending.start (spawn (omega arith)))
          (answer 0 (some (message "unhealthy")) refl (unhealthy 0)))
        (again 0 (message "unhealthy") refl refl))
      (expire 0 refl)

any_vault_ends_example :
    (4 ≤ 3 * 1 + 2 * 1) × (((t : State) → Step 1 NoneHealthy retried t → ⊥) → Returned 1 retried)
any_vault_ends_example = any_vault_ends 1 NoneHealthy 4 1 retried retried-Run
