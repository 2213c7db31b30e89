-- ===== src/Sealing/AnyVault.antt =====
-- vault/vault.go: `AnyVault`, whose goroutines share `errs`, `success` and the variable `i` of the
-- loop that starts them, as a step relation; and `RaftAutopilotHealthy`, which calls it.
pub mod Calm
pub mod Race
pub mod Ending
use yurt.Prelude.{
  ℕ, suc, ◌+◌, ◌<◌, ◌==◌, ◌≡◌, Bool, true, false, List, [], ◌∷◌, Option, none, some, if◌then◌else◌,
}
use yurt.Effects.{Error, Result, ok, err, message, panic}

-- Where a goroutine stands: before the test of the context, between the assignment to `errs[i]` and
-- its test, or returned.
pub data Pc : Type 0 where
  unborn asking checking done : Pc

-- `index` is the variable `i`, and `spawned` the number of goroutines that were started.
pub record State : Type 0 where
  pub index : ℕ
  pub spawned : ℕ
  pub errs : ℕ → Option Error
  pub success : Bool
  pub pc : ℕ → Pc

abbrev pub update {ℓ} : {A : Type ℓ} → (ℕ → A) → ℕ → A → ℕ → A
update f i a j = if j == i then a else f j

-- The start of goroutine `spawned`.
abbrev pub spawned_one : State → State
spawned_one s = record s {
  index = s.spawned;
  spawned = s.spawned + 1;
  pc = update s.pc s.spawned asking;
}

-- `errs[i] = f(client)` in goroutine j, where `f` has answered `r`
abbrev pub answered : State → ℕ → Option Error → State
answered s j r = record s { errs = update s.errs s.index r; pc = update s.pc j checking }

-- `success.Store(true)`, and the return of goroutine j
abbrev pub succeeded : State → ℕ → State
succeeded s j = record s { success = true; pc = update s.pc j done }

abbrev pub moved : State → ℕ → Pc → State
moved s j p = record s { pc = update s.pc j p }

-- The steps with n servers, of which server j may answer `f` with `r` when `Answers j r`. The context
-- may end at any time.
pub data Step (n : ℕ) (Answers : ℕ → Option Error → Type 0) (s : State) : State → Type 0 where
  spawn : s.spawned < n → Step n Answers s (spawned_one s)
  answer :
      (j : ℕ) (r : Option Error) → s.pc j ≡ asking → Answers j r → Step n Answers s (answered s j r)
  succeed : (j : ℕ) → s.pc j ≡ checking → s.errs s.index ≡ none → Step n Answers s (succeeded s j)
  again :
      (j : ℕ) (e : Error)
      → s.pc j ≡ checking
      → s.errs s.index ≡ some e
      → Step n Answers s (moved s j asking)
  expire : (j : ℕ) → s.pc j ≡ asking → Step n Answers s (moved s j done)

abbrev pub init : State
init = record { index = 0; spawned = 0; errs = λ j. none; success = false; pc = λ j. unborn }

pub data Reach (n : ℕ) (Answers : ℕ → Option Error → Type 0) : State → Type 0 where
  start : Reach n Answers init
  later : {s t : State} → Reach n Answers s → Step n Answers s t → Reach n Answers t

-- After `wg.Wait()`: all goroutines were started and have returned.
abbrev pub Returned : ℕ → State → Type 0
Returned n s = (s.spawned ≡ n) × ((j : ℕ) → j < n → s.pc j ≡ done)

-- Of the state of autopilot, what is read.
pub record AutopilotState : Type 0 where
  pub healthy : Bool
  pub servers : List Bool

-- What `RaftAutopilotHealthy` does with the answer of a server. The text of the log is cut by two
-- bytes, which panics when there is no server.
unfoldable pub autopilot_healthy : Result (Option AutopilotState) → Result (Unit {0})
autopilot_healthy (err e) = err e
autopilot_healthy (ok none) = err (message "unhealthy")
autopilot_healthy (ok (some state)) =
    if state.healthy
    then elim state.servers [
      | [] ↦ err (panic "bytes.Buffer: truncation out of range")
      | s ∷ servers ↦ ok tt
    ]
    else err (message "unhealthy")
