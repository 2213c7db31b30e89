-- ===== src/Prelude/Lists.antt =====
-- Lists measured and indexed by native numbers, and membership of texts as a Boolean test.
use Prim.Native.Nat.{ℕ, zero, suc, ◌+◌}
use Prim.Native.String.{String}
use mathlib.Core.Path.{◌≡◌, refl}
use mathlib.Core.Bool.{Bool, true, false}
use mathlib.Core.Option.{Option, none, some}
use mathlib.Core.List.{List, [], ◌∷◌, ◌++◌}
use native.Mathlib.Omega.{arith}
use yurt.Prelude.Tests.{str_eq, if◌then◌else◌}

module _ {ℓ} {A : Type ℓ} where
  abbrev pub length : List A → ℕ
  length [] = 0
  length (x ∷ xs) = suc (length xs)

  abbrev pub get_elem? : List A → ℕ → Option A
  get_elem? [] i = none
  get_elem? (x ∷ xs) zero = some x
  get_elem? (x ∷ xs) (suc i) = get_elem? xs i

  abbrev pub set : List A → ℕ → A → List A
  set [] i v = []
  set (x ∷ xs) zero v = v ∷ xs
  set (x ∷ xs) (suc i) v = x ∷ set xs i v

  pub length-append : (xs ys : List A) → length (xs ++ ys) ≡ length xs + length ys
  length-append [] ys = omega arith
  length-append (x ∷ xs) ys = omega (arith, length-append xs ys)

-- A predicate of every element.
abbrev pub All {ℓ κ} : {A : Type ℓ} → (A → Type κ) → List A → Type κ
All P [] = Unit
All P (x ∷ xs) = P x × All P xs

abbrev pub contains : List String → String → Bool
contains [] a = false
contains (x ∷ xs) a = let rest = contains xs a in if str_eq x a then true else rest

contains-append :
    (xs ys : List String) (a : String)
    → contains (xs ++ ys) a ≡ (if contains xs a then true else contains ys a)
contains-append [] ys a = refl
contains-append (x ∷ xs) ys a = ground (arith, contains-append xs ys a)

pub contains_left :
    (xs ys : List String) (a : String) → contains xs a ≡ true → contains (xs ++ ys) a ≡ true
contains_left xs ys a h = ground (arith, contains-append xs ys a)

pub contains_right :
    (xs ys : List String) (a : String) → contains ys a ≡ true → contains (xs ++ ys) a ≡ true
contains_right xs ys a h = ground (arith, contains-append xs ys a)

-- No text is listed twice.
abbrev pub Distinct : List String → Type 0
Distinct [] = Unit {0}
Distinct (x ∷ xs) = (contains xs x ≡ false) × Distinct xs

-- The first list, turned around, in front of the second: the order in which histories list things.
abbrev pub onto {ℓ} : {A : Type ℓ} → List A → List A → List A
onto [] older = older
onto (x ∷ xs) older = onto xs (x ∷ older)

pub onto-append {ℓ} :
    {A : Type ℓ} (xs : List A) (x : A) (older : List A)
    → onto (xs ++ (x ∷ [])) older ≡ x ∷ onto xs older
onto-append [] x older = refl
onto-append (y ∷ xs) x older = onto-append xs x (y ∷ older)
