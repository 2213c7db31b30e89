-- ===== src/Sealing/AnyVault/Calm.antt =====
-- vault/vault.go: what `AnyVault` promises when no goroutine runs before all were started.
use yurt.Prelude.{ℕ, ◌≡◌, true, Option, none, some, arith}
use yurt.Effects.{Error}
use yurt.Sealing.AnyVault.{checking, State, Step, spawn, answer, succeed, again, expire, init}

-- Only the loop moves before all goroutines were started.
abbrev pub InOrder :
    {n : ℕ} {Answers : ℕ → Option Error → Type 0} {s t : State} → Step n Answers s t → Type 0
InOrder (spawn h) = Unit {0}
InOrder {n} {s = s} (answer j r h a) = s.spawned ≡ n
InOrder {n} {s = s} (succeed j h e) = s.spawned ≡ n
InOrder {n} {s = s} (again j x h e) = s.spawned ≡ n
InOrder {n} {s = s} (expire j h) = s.spawned ≡ n

pub data CalmReach (n : ℕ) (Answers : ℕ → Option Error → Type 0) : State → Type 0 where
  start : CalmReach n Answers init
  later :
      {s t : State}
      → CalmReach n Answers s
      → (st : Step n Answers s t) → InOrder st
      → CalmReach n Answers t

module _ (n : ℕ) (Answers : ℕ → Option Error → Type 0) where
  -- Some server has answered without an error.
  abbrev pub Answered : Type 0
  Answered = (k : ℕ) × Answers k none

  record Inv (s : State) : Type 0 where
    all_started : (j : ℕ) → s.pc j ≡ checking → s.spawned ≡ n
    checked : (j : ℕ) → s.pc j ≡ checking → s.errs s.index ≡ none → Answered
    succeeded_once : s.success ≡ true → Answered

  Step-Inv : {s t : State} (st : Step n Answers s t) → InOrder st → Inv s → Inv t
  Step-Inv {s} (spawn h) o inv = record {
    all_started = λ j p. absurd (ground (arith, inv.all_started j));
    checked = λ j p e. absurd (ground (arith, inv.all_started j));
    succeeded_once = inv.succeeded_once;
  }
  Step-Inv {s} (answer i none h a) o inv = record {
    all_started = λ j p. o;
    checked = λ j p e. (i, a);
    succeeded_once = inv.succeeded_once;
  }
  Step-Inv {s} (answer i (some x) h a) o inv = record {
    all_started = λ j p. o;
    checked = λ j p e. absurd (ground arith);
    succeeded_once = inv.succeeded_once;
  }
  Step-Inv {s} (succeed i h e) o inv = record {
    all_started = λ j p. o;
    checked = λ j p k. inv.checked i h k;
    succeeded_once = λ p. inv.checked i h e;
  }
  Step-Inv {s} (again i x h e) o inv = record {
    all_started = λ j p. o;
    checked = λ j p k. inv.checked i h k;
    succeeded_once = inv.succeeded_once;
  }
  Step-Inv {s} (expire i h) o inv = record {
    all_started = λ j p. o;
    checked = λ j p k. inv.checked j (ground arith) k;
    succeeded_once = inv.succeeded_once;
  }

  CalmReach-Inv : {s : State} → CalmReach n Answers s → Inv s
  CalmReach-Inv start = record {
    all_started = λ j p. absurd (ground arith);
    checked = λ j p e. absurd (ground arith);
    succeeded_once = λ p. absurd (ground arith);
  }
  CalmReach-Inv (later r st o) = Step-Inv st o (CalmReach-Inv r)

-- If no goroutine of `AnyVault` moves before all were started, success means that one of the servers
-- has answered without an error.
pub any_vault-Answered :
    (n : ℕ) (Answers : ℕ → Option Error → Type 0) (s : State)
    → CalmReach n Answers s
    → s.success ≡ true
    → Answered n Answers
any_vault-Answered n Answers s r e = (CalmReach-Inv n Answers r).succeeded_once e
