-- ===== src/Commands/Prometheus/Health.antt =====
-- prometheus/prometheus.go: `HealthCheck`, which waits until Prometheus has targets and drops none.
use yurt.Prelude.{
  ℕ, ◌≡◌, refl, ◌↔◌, ◌⊎◌, Option, none, some, List, [], true, ◌||◌, ltb, ◌==◌, arith, if◌then◌else◌,
}
use yurt.Effects.{Error, Result, ok, err, unhealthy_targets}
use yurt.Runner.Polling.{poll, poll-none, succeeds}

-- Of a `TargetsResult`, the numbers of targets.
pub record Targets : Type 0 where
  pub active : ℕ
  pub dropped : ℕ

-- The body of the loop, on the answer of a client that could be made.
unfoldable pub targets_verdict : Result Targets → Result (Unit {0})
targets_verdict (err e) = err e
targets_verdict (ok t) =
    if t.active == 0 || ltb 0 t.dropped then err (unhealthy_targets t.active t.dropped) else ok tt

-- The end of `HealthCheck`: without an error, that of the context is returned.
abbrev pub or_context : Option Error → Option Error → Option Error
or_context none at_end = at_end
or_context (some e) at_end = some e

-- `HealthCheck`: the list holds what the client answers in each round that begins before the context
-- ends, and `at_end` is what the last test of `ctx.Err()` finds.
unfoldable pub health_check : List (Result Targets) → Option Error → Option Error
health_check answers at_end = or_context (poll targets_verdict none answers) at_end

or_context_iff :
    (e at_end : Option Error) → (or_context e at_end ≡ none) ↔ ((e ≡ none) × (at_end ≡ none))
or_context_iff none at_end = (λ h. (refl, h), λ (_, h). h)
or_context_iff (some e) at_end = (λ h. absurd (ground arith), λ (h, _). absurd (ground arith))

-- `HealthCheck` returns nil exactly when the context has not ended at the last test and, if there was
-- a round at all, some round found targets and none dropped.
health_check_iff :
    (answers : List (Result Targets)) (at_end : Option Error)
    → (health_check answers at_end ≡ none)
      ↔ ((at_end ≡ none) × ((answers ≡ []) ⊎ (succeeds targets_verdict answers ≡ true)))
unfolding health_check
health_check_iff answers at_end =
    let (split_up, put_together) = or_context_iff (poll targets_verdict none answers) at_end in
    let (found, give) = poll-none targets_verdict none answers in
    (λ h. ((split_up h).1, (found (split_up h).0).1), λ (h, g). put_together (give (refl, g), h))
