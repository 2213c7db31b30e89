-- ===== src/Sealing/Unsealing.antt =====
-- When `Status` and `Unseal` succeed.
use yurt.Prelude.{
  ◌≡◌, refl, ◌↔◌, Option, none, some, List, [], ◌∷◌, Bool, true, false, arith, if◌then◌else◌,
}
use yurt.Effects.{Error, Result, ok, err}
use yurt.Sealing.{SealStatus, Answer, is_unsealed, status, status_rounds, unseal, unseal_rounds}

-- The first answer that is no error.
abbrev pub first_ok {ℓ} : {A : Type ℓ} → List (Result A) → Option A
first_ok [] = none
first_ok (ok s ∷ answers) = some s
first_ok (err e ∷ answers) = first_ok answers

abbrev pub some_unsealed : List Answer → Bool
some_unsealed [] = false
some_unsealed (a ∷ answers) =
    let rest = some_unsealed answers in if is_unsealed a then true else rest

status_rounds_ok :
    (ended : Error) (last : Option Error) (answers : List (Result SealStatus)) (s : SealStatus)
    → (status_rounds ended last answers ≡ ok s) ↔ (first_ok answers ≡ some s)
unfolding status_rounds
status_rounds_ok ended none [] s = (λ h. absurd (ground arith), λ h. absurd (ground arith))
status_rounds_ok ended (some e) [] s = (λ h. absurd (ground arith), λ h. absurd (ground arith))
status_rounds_ok ended last (ok x ∷ answers) s = (λ h. ground arith, λ h. ground arith)
status_rounds_ok ended last (err e ∷ answers) s = status_rounds_ok ended (some e) answers s

-- `Status` returns a seal status exactly when a round before the end of the context answers without
-- an error, and it returns the first such answer.
status-first_ok :
    (ended : Error) (answers : List (Result SealStatus)) (s : SealStatus)
    → (status ended answers ≡ ok s) ↔ (first_ok answers ≡ some s)
unfolding status
status-first_ok ended answers s = status_rounds_ok ended none answers s

unseal_rounds-none :
    (last : Option Error) (answers : List Answer)
    → (unseal_rounds last answers ≡ none) ↔ (some_unsealed answers ≡ true)
unfolding unseal_rounds
unseal_rounds-none none [] = (λ h. absurd (ground arith), λ h. absurd (ground arith))
unseal_rounds-none (some e) [] = (λ h. absurd (ground arith), λ h. absurd (ground arith))
unseal_rounds-none last (a ∷ answers) = (
  λ h. ground (arith, unseal_rounds-none a.1 answers),
  λ h. ground (arith, unseal_rounds-none a.1 answers),
)

-- `Unseal` returns nil exactly when the server answers the key with a status that is initialized
-- and not sealed, and a later round before the end of the context reports it unsealed.
pub unseal_iff :
    (first : Result SealStatus) (answers : List Answer)
    → (unseal first answers ≡ none) ↔ (
        ((s : SealStatus) × (first ≡ ok s) × (s.sealed ≡ false) × (s.initialized ≡ true))
        × (some_unsealed answers ≡ true))
unfolding unseal
unseal_iff (err e) answers = (λ h. absurd (ground arith), λ h. absurd (ground arith))
unseal_iff (ok s) answers = (
  λ h. ((s, refl, ground arith, ground arith), ground (arith, unseal_rounds-none none answers)),
  λ h. ground (arith, unseal_rounds-none none answers),
)
