-- ===== src/Effects.antt =====
-- Go's `error` values. Errors keep the arguments of their message; `external` is an error of a
-- library, with its text.
pub mod Calls
pub mod Methods
use yurt.Prelude.{ℕ, String, ◌≡◌, arith, refl}

pub data Error : Type 0 where
  -- an error of a library, with its text
  external : String → Error
  -- an error of this program whose text is fixed
  message : String → Error
  wrapped : String → Error → Error
  -- a run-time panic, which ends the program
  panic : String → Error
  unhealthy_targets : ℕ → ℕ → Error
  no_address no_port_defined unknown_config unknown_package bad_mode : String → Error

pub data Result {ℓ} (A : Type ℓ) : Type ℓ where
  ok : A → Result A
  err : Error → Result A

infixl 5 ◌>>=◌
-- The first error ends a chain.
abbrev pub ◌>>=◌ {ℓ κ} : {A : Type ℓ} {B : Type κ} → Result A → (A → Result B) → Result B
ok a >>= f = f a
err e >>= f = err e

-- A chain that succeeds has a first step that succeeds.
pub bind_ok {ℓ κ} :
    {A : Type ℓ} {B : Type κ} (r : Result A) (f : A → Result B) {b : B}
    → (r >>= f) ≡ ok b
    → (a : A) × (r ≡ ok a) × (f a ≡ ok b)
bind_ok (ok a) f h = (a, refl, h)
bind_ok (err x) f h = absurd (ground arith)
