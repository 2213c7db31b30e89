-- ===== src/Prelude/Maps.antt =====
-- A Go map with string keys. The list's order is the order in which a `range` visits the entries:
-- Go leaves that order open, and a statement over every such list covers each order.
use Prim.Native.String.{String}
use mathlib.Core.Path.{◌≡◌, refl}
use mathlib.Core.Option.{Option, none, some}
use mathlib.Core.List.{List, [], ◌∷◌}
use native.Mathlib.Omega.{arith}
use text.Mathlib.TextEquality.{eq_iff}
use yurt.Prelude.Tests.{str_eq, if◌then◌else◌}

abbrev pub Dict {ℓ} : Type ℓ → Type ℓ
Dict V = List (String × V)

module _ {ℓ} {V : Type ℓ} where
  -- `v, ok := m[k]`
  unfoldable pub lookup : String → Dict V → Option V
  lookup key [] = none
  lookup key ((here, value) ∷ entries) =
      let later = lookup key entries in if str_eq here key then some value else later

  -- `m[k] = v`
  unfoldable pub insert : String → V → Dict V → Dict V
  insert key value [] = (key, value) ∷ []
  insert key value ((here, old) ∷ entries) =
      let later = insert key value entries in
      if str_eq here key then (key, value) ∷ entries else (here, old) ∷ later

  -- `m[k]`, with the zero value for a key that is missing
  unfoldable pub lookup_or : V → String → Dict V → V
  unfolding lookup
  lookup_or zero_value k m = elim (lookup k m) [ none ↦ zero_value | some v ↦ v ]

  pub lookup-insert :
      (key wanted : String) (value : V) (entries : Dict V)
      → lookup wanted (insert key value entries)
        ≡ (if str_eq key wanted then some value else lookup wanted entries)
  unfolding lookup insert
  lookup-insert key wanted value [] = refl
  lookup-insert key wanted value ((here, old) ∷ entries) =
      let later = lookup-insert key wanted value entries in
      ground (arith, eq_iff key wanted, eq_iff here key, eq_iff here wanted, later)
