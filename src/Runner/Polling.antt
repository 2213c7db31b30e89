-- ===== src/Runner/Polling.antt =====
-- `LeaderPeerAPIsHealthy` and `LeaderAPIsHealthy`: rounds until one succeeds or the context ends.
use yurt.Prelude.{
  String, ◌≡◌, refl, ◌↔◌, ◌⊎◌, inl, inr, Option, none, some, List, [], ◌∷◌, Bool, true, false,
  arith,
}
use yurt.Effects.{Error, Result, ok, err}
use yurt.Runner.Health.{
  LeaderPeersApi, Slice, leader_peer_apis_healthy_now, leader_apis_healthy_now,
}

-- `for ctx.Err() == nil { … }`: the list holds what the members answer in each round that begins
-- before the context ends, so its end is the end of the context. `last` is the variable `err`.
module _ {ℓ κ} {R : Type ℓ} {A : Type κ} (now : R → Result A) where
  rounds : Option Error → List R → Option Error
  rounds last [] = last
  rounds last (r ∷ rest) = elim (now r) [ ok a ↦ none | err e ↦ rounds (some e) rest ]

  -- `first` is what the first test of `ctx.Err()` finds.
  unfoldable pub poll : Option Error → List R → Option Error
  unfolding rounds
  poll (some e) answers = some e
  poll none answers = rounds none answers

-- `LeaderPeerAPIsHealthy`; the result is its error.
unfoldable pub leader_peer_apis_healthy :
    Slice → Option Error → List (List LeaderPeersApi) → Option Error
unfolding poll
leader_peer_apis_healthy expected_peers =
    poll (λ apis. leader_peer_apis_healthy_now apis expected_peers)

-- `LeaderAPIsHealthy`
unfoldable pub leader_apis_healthy : Option Error → List (List (Result String)) → Option Error
unfolding poll
leader_apis_healthy = poll leader_apis_healthy_now

-- Some round succeeds.
abbrev pub succeeds {ℓ κ} : {R : Type ℓ} {A : Type κ} → (R → Result A) → List R → Bool
succeeds now [] = false
succeeds now (r ∷ rest) = elim (now r) [ ok a ↦ true | err e ↦ succeeds now rest ]

module _ {ℓ κ} {R : Type ℓ} {A : Type κ} (now : R → Result A) where
  rounds-none :
      (e : Error) (answers : List R)
      → (rounds now (some e) answers ≡ none) ↔ (succeeds now answers ≡ true)
  unfolding rounds
  rounds-none e [] = (λ h. absurd (ground arith), λ h. absurd (ground arith))
  rounds-none e (r ∷ answers) = step (now r) (λ x. rounds-none x answers)
    where
      step :
          (v : Result A)
          → ((x : Error) → (rounds now (some x) answers ≡ none) ↔ (succeeds now answers ≡ true))
          → (◌≡◌ {A = Option Error}
              (elim v [ ok a ↦ none | err x ↦ rounds now (some x) answers ])
              none)
            ↔ (◌≡◌ {A = Bool} (elim v [ ok a ↦ true | err x ↦ succeeds now answers ]) true)
      step (ok a) ih = (λ _. refl, λ _. refl)
      step (err x) ih = ih x

  pub poll-none :
      (first : Option Error) (answers : List R)
      → (poll now first answers ≡ none)
        ↔ ((first ≡ none) × ((answers ≡ []) ⊎ (succeeds now answers ≡ true)))
  unfolding poll
  poll-none (some e) answers = (λ h. absurd (ground arith), λ (h, _). absurd (ground arith))
  poll-none none [] = (λ _. (refl, inl refl), λ _. refl)
  poll-none none (r ∷ answers) = step (now r) (λ x. rounds-none x answers)
    where
      step :
          (v : Result A)
          → ((x : Error) → (rounds now (some x) answers ≡ none) ↔ (succeeds now answers ≡ true))
          → (◌≡◌ {A = Option Error}
              (elim v [ ok a ↦ none | err x ↦ rounds now (some x) answers ])
              none)
            ↔ ((◌≡◌ {A = Option Error} none none)
                × ((r ∷ answers ≡ [])
                    ⊎ (◌≡◌ {A = Bool}
                        (elim v [ ok a ↦ true | err x ↦ succeeds now answers ])
                        true)))
      step (ok a) ih = (λ _. (refl, inr refl), λ _. refl)
      step (err x) ih = (λ h. (refl, inr ((ih x).0 h)), λ h. (ih x).1 (ground arith))

-- `LeaderPeerAPIsHealthy` returns nil exactly when the context had not ended at the first test and
-- either some round was healthy, or the context ended before the first round began.
pub leader_peer_apis_healthy_iff :
    (expected : Slice) (first : Option Error) (answers : List (List LeaderPeersApi))
    → (leader_peer_apis_healthy expected first answers ≡ none) ↔ (
        (first ≡ none)
        × ((answers ≡ [])
            ⊎ (succeeds (λ apis. leader_peer_apis_healthy_now apis expected) answers ≡ true)))
unfolding leader_peer_apis_healthy
leader_peer_apis_healthy_iff expected =
    poll-none (λ apis. leader_peer_apis_healthy_now apis expected)

-- `LeaderAPIsHealthy` returns nil exactly when the context had not ended at the first test and either
-- some round found a leader, or the context ended before the first round began.
leader_apis_healthy_iff :
    (first : Option Error) (answers : List (List (Result String)))
    → (leader_apis_healthy first answers ≡ none)
      ↔ ((first ≡ none) × ((answers ≡ []) ⊎ (succeeds leader_apis_healthy_now answers ≡ true)))
unfolding leader_apis_healthy
leader_apis_healthy_iff = poll-none leader_apis_healthy_now
