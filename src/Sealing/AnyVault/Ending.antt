-- ===== src/Sealing/AnyVault/Ending.antt =====
-- vault/vault.go: how long `AnyVault` can run, and that it only stops when all goroutines have returned.
use yurt.Prelude.{
  ℕ, zero, suc, ◌+◌, ◌*◌, ◌<◌, ◌≤◌, ◌≡◌, refl, Option, arith, ap, some, none, ◌⊎◌, inl, inr,
}
use yurt.Effects.{Error}
use yurt.Sealing.AnyVault.{
  Pc, unborn, asking, checking, done, State, Step, spawn, answer, succeed, again, expire, init,
  update, Returned, moved, succeeded, spawned_one,
}

-- How many steps a goroutine can take without a retry.
abbrev pub weight : Pc → ℕ
weight unborn = 0
weight asking = 2
weight checking = 1
weight done = 0

-- Those of the goroutines below n.
abbrev pub weights : ℕ → (ℕ → Pc) → ℕ
weights zero pc = 0
weights (suc n) pc = weights n pc + weight (pc n)

weights_above : (n j : ℕ) (pc : ℕ → Pc) (p : Pc) → n ≤ j → weights n (update pc j p) ≡ weights n pc
weights_above zero j pc p h = refl
weights_above (suc n) j pc p h = ground (arith, weights_above n j pc p)

weights-update :
    (n j : ℕ) (pc : ℕ → Pc) (p : Pc)
    → j < n
    → weights n (update pc j p) + weight (pc j) ≡ weights n pc + weight p
weights-update zero j pc p h = absurd (omega arith)
weights-update (suc n) j pc p h = ground (arith, weights-update n j pc p, weights_above n j pc p)

abbrev pub retry_of :
    {n : ℕ} {Answers : ℕ → Option Error → Type 0} {s t : State} → Step n Answers s t → ℕ
retry_of (spawn h) = 0
retry_of (answer j r h a) = 0
retry_of (succeed j h e) = 0
retry_of (again j x h e) = 1
retry_of (expire j h) = 0

-- A run, with the number of its steps and of its retries.
pub data Run (n : ℕ) (Answers : ℕ → Option Error → Type 0) : ℕ → ℕ → State → Type 0 where
  start : Run n Answers 0 0 init
  later :
      {steps retries : ℕ} {s t : State}
      → Run n Answers steps retries s
      → (st : Step n Answers s t) → Run n Answers (steps + 1) (retries + retry_of st) t

module _ (n : ℕ) where
  record Inv (steps retries spawned : ℕ) (pc : ℕ → Pc) : Type 0 where
    within : spawned ≤ n
    later_unborn : (j : ℕ) → spawned ≤ j → pc j ≡ unborn
    earlier_born : (j : ℕ) → j < spawned → pc j ≡ unborn → ⊥
    bounded : steps + weights n pc ≤ 3 * spawned + 2 * retries

  spawn-Inv :
      (steps retries spawned : ℕ) (pc : ℕ → Pc)
      → spawned < n
      → Inv steps retries spawned pc
      → Inv (steps + 1) (retries + 0) (spawned + 1) (update pc spawned asking)
  spawn-Inv steps retries spawned pc h inv = record {
    within = omega (arith, h);
    later_unborn = λ j p. ground (arith, inv.later_unborn j);
    earlier_born = λ j p u. ground (arith, inv.earlier_born j);
    bounded =
        let unspent : weight (pc spawned) ≡ 0 =
          ap weight (inv.later_unborn spawned (omega arith)) in
        omega (arith, weights-update n spawned pc asking h, inv.bounded, unspent);
  }

  -- A goroutine that was started moves on.
  update-Inv :
      (steps retries spawned retry j : ℕ) (pc : ℕ → Pc) (from to : Pc)
      → pc j ≡ from
      → (from ≡ unborn → ⊥)
      → (to ≡ unborn → ⊥)
      → weight to + 1 ≤ weight from + 2 * retry
      → Inv steps retries spawned pc
      → Inv (steps + 1) (retries + retry) spawned (update pc j to)
  update-Inv steps retries spawned retry j pc from to at from_born to_born spent inv = record {
    within = inv.within;
    later_unborn = λ i p. ground (arith, inv.later_unborn i, below);
    earlier_born = λ i p u. ground (arith, inv.earlier_born i);
    bounded =
        let spent_here : weight (pc j) ≡ weight from = ap weight at in
        omega (
          arith,
          weights-update n j pc to (omega (arith, below, inv.within)),
          inv.bounded,
          spent_here,
          spent,
        );
  }
    where
      below : j < spawned
      below = ground (arith, inv.later_unborn j)

  weights_unborn : (k : ℕ) → weights k (λ j. unborn) ≡ 0
  weights_unborn zero = refl
  weights_unborn (suc k) = omega (arith, weights_unborn k)

  module _ (Answers : ℕ → Option Error → Type 0) where
    Step-Inv :
        {s t : State} (steps retries : ℕ) (st : Step n Answers s t)
        → Inv steps retries s.spawned s.pc
        → Inv (steps + 1) (retries + retry_of st) t.spawned t.pc
    Step-Inv {s} steps retries (spawn h) inv = spawn-Inv steps retries s.spawned s.pc h inv
    Step-Inv {s} steps retries (answer j r h a) inv =
        update-Inv steps retries s.spawned 0 j s.pc asking checking h (λ q. ground arith)
          (λ q. ground arith) (omega arith) inv
    Step-Inv {s} steps retries (succeed j h e) inv =
        update-Inv steps retries s.spawned 0 j s.pc checking done h (λ q. ground arith)
          (λ q. ground arith) (omega arith) inv
    Step-Inv {s} steps retries (again j x h e) inv =
        update-Inv steps retries s.spawned 1 j s.pc checking asking h (λ q. ground arith)
          (λ q. ground arith) (omega arith) inv
    Step-Inv {s} steps retries (expire j h) inv =
        update-Inv steps retries s.spawned 0 j s.pc asking done h (λ q. ground arith)
          (λ q. ground arith) (omega arith) inv

    Run-Inv :
        {steps retries : ℕ} {s : State}
        → Run n Answers steps retries s
        → Inv steps retries s.spawned s.pc
    Run-Inv start = record {
      within = omega arith;
      later_unborn = λ j p. refl;
      earlier_born = λ j p. absurd (omega arith);
      bounded = omega (arith, weights_unborn n);
    }
    Run-Inv (later {steps} {retries} r st) = Step-Inv steps retries st (Run-Inv r)

  -- A goroutine that was started can move unless it has returned.
  stuck_done :
      (Answers : ℕ → Option Error → Type 0) (s : State) (j : ℕ)
      → ((t : State) → Step n Answers s t → ⊥)
      → (s.pc j ≡ unborn → ⊥)
      → s.pc j ≡ done
  stuck_done Answers s j stuck born = at (s.pc j) refl (s.errs s.index) refl
    where
      at : (p : Pc) → s.pc j ≡ p → (e : Option Error) → s.errs s.index ≡ e → s.pc j ≡ done
      at unborn q e r = absurd (born q)
      at asking q e r = absurd (stuck (moved s j done) (expire j q))
      at checking q none r = absurd (stuck (succeeded s j) (succeed j q r))
      at checking q (some x) r = absurd (stuck (moved s j asking) (again j x q r))
      at done q e r = q

-- A run of `AnyVault` with n servers in which the goroutines retry k times together has at most
-- 3n + 2k steps, in whatever order they are taken; and a run that cannot go on has started all
-- goroutines, and all of them have returned.
pub any_vault_ends :
    (n : ℕ) (Answers : ℕ → Option Error → Type 0) (steps retries : ℕ) (s : State)
    → Run n Answers steps retries s
    → (steps ≤ 3 * n + 2 * retries) × (((t : State) → Step n Answers s t → ⊥) → Returned n s)
any_vault_ends n Answers steps retries s r =
    let inv = Run-Inv n Answers r in
    (omega (arith, inv.bounded, inv.within), λ stuck. all_returned inv stuck)
  where
    all_returned :
        Inv n steps retries s.spawned s.pc → ((t : State) → Step n Answers s t → ⊥) → Returned n s
    all_returned inv stuck =
        (whole, λ j p. stuck_done n Answers s j stuck (inv.earlier_born j (omega (arith, whole))))
      where
        whole : s.spawned ≡ n
        whole =
            let cases : (s.spawned < n) ⊎ (s.spawned ≡ n) = omega (arith, inv.within) in
            elim cases [
              | inl below ↦ absurd (stuck (spawned_one s) (spawn below))
              | inr same ↦ same
            ]
