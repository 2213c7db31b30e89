-- ===== src/Sealing/AnyVault/Race.antt =====
-- vault/vault.go: how `AnyVault` reports a success that no server has had.
use yurt.Prelude.{ℕ, zero, suc, ◌+◌, ◌-◌, ◌<◌, ◌≡◌, refl, true, Option, some, arith}
use yurt.Effects.{Error}
use yurt.Sealing.AnyVault.{
  done, State, spawned_one, answered, succeeded, moved, spawn, answer, succeed, expire, init, Reach,
  start, later, Returned,
}

module _ (n : ℕ) (Answers : ℕ → Option Error → Type 0) where
  -- All goroutines that were started have returned.
  abbrev AllDone : State → Type 0
  AllDone s = (j : ℕ) → j < s.spawned → s.pc j ≡ done

  -- One more goroutine is started and finds its context ended.
  one_more : State → State
  one_more s = moved (spawned_one s) s.spawned done

  one_more-AllDone : (s : State) → AllDone s → AllDone (one_more s)
  unfolding one_more
  one_more-AllDone s h j p = ground (arith, h j)

  one_more-Reach : (s : State) → s.spawned < n → Reach n Answers s → Reach n Answers (one_more s)
  unfolding one_more
  one_more-Reach s h r = later (later r (spawn h)) (expire s.spawned (ground arith))

  finish :
      (m : ℕ) (s : State)
      → s.spawned + m ≡ n
      → AllDone s
      → s.success ≡ true
      → Reach n Answers s
      → (t : State) × Reach n Answers t × Returned n t × (t.success ≡ true)
  unfolding one_more
  finish zero s e h won r = (s, r, (ground arith, λ j p. h j (omega (arith, e))), won)
  finish (suc m) s e h won r =
      finish m (one_more s) (omega (arith, e)) (one_more-AllDone s h) won
        (one_more-Reach s (omega (arith, e)) r)

-- With two servers or more of which the first may answer with an error, `AnyVault` can return nil
-- whatever the others answer, also when no server ever answers without an error: there is a run in
-- which all goroutines have returned and success is set.
pub any_vault_race :
    (n : ℕ) (Answers : ℕ → Option Error → Type 0) (e : Error)
    → 1 < n
    → Answers 0 (some e)
    → (t : State) × Reach n Answers t × Returned n t × (t.success ≡ true)
any_vault_race n Answers e many a =
    finish n Answers (n - 2) (moved (succeeded s3 0) 1 done) (omega (arith, many))
      (λ j p. ground arith) refl (later (later reach3 (succeed 0 refl refl)) (expire 1 refl))
  where
    s3 : State
    s3 = spawned_one (answered (spawned_one init) 0 (some e))

    reach3 : Reach n Answers s3
    reach3 =
        later (later (later start (spawn (omega (arith, many)))) (answer 0 (some e) refl a))
          (spawn many)
