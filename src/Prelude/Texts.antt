-- ===== src/Prelude/Texts.antt =====
-- `strings.Contains`, `strings.HasPrefix`, `strings.HasSuffix`, and texts that are split and joined.
use Prim.Native.Nat.{ℕ, zero, suc, ◌+◌, ◌-◌}
use Prim.Native.String.{String, len, slice, ◌++◌ as ◌<>◌}
use mathlib.Core.Bool.{Bool, true, false, ◌&&◌}
use mathlib.Core.Option.{Option, none, some}
use mathlib.Core.List.{List, [], ◌∷◌}
use mathlib.Core.Path.{◌≡◌}
use native.Mathlib.Omega.{arith}
use text.Mathlib.Text.{find?}
use yurt.Prelude.Tests.{leb, str_eq}

unfoldable pub contains_text : String → String → Bool
contains_text s t = elim (find? s t) [ none ↦ false | some i ↦ true ]

unfoldable pub has_prefix : String → String → Bool
has_prefix s t = leb (len t) (len s) && str_eq (slice s 0 (len t)) t

unfoldable pub has_suffix : String → String → Bool
has_suffix s t = leb (len t) (len s) && str_eq (slice s (len s - len t) (len s)) t

-- `strings.Split`, on fuel: one more than the length of the text is enough, since each round cuts
-- off at least a separator.
abbrev pub split_rounds : ℕ → String → String → List String
split_rounds zero s sep = s ∷ []
split_rounds (suc rounds) s sep = elim (find? s sep) [
  | none ↦ s ∷ []
  | some i ↦ slice s 0 i ∷ split_rounds rounds (slice s (i + len sep) (len s)) sep
]

unfoldable pub split : String → String → List String
split s sep = split_rounds (suc (len s)) s sep

-- The text before the last separator, on the same fuel.
abbrev pub before_last_rounds : ℕ → String → String → Option String
before_last_rounds zero s sep = none
before_last_rounds (suc rounds) s sep = elim (find? s sep) [
  | none ↦ none
  | some i ↦ elim (before_last_rounds rounds (slice s (i + len sep) (len s)) sep) [
    | none ↦ some (slice s 0 i)
    | some p ↦ some (slice s 0 (i + len sep) <> p)
  ]
]

unfoldable pub before_last : String → String → Option String
before_last s sep = before_last_rounds (suc (len s)) s sep

-- A split text has a first piece.
pub split-ne-nil : (s sep : String) → split s sep ≡ [] → ⊥
unfolding split
split-ne-nil s sep e = ground arith

-- `strings.Join`
unfoldable pub join_texts : String → List String → String
join_texts sep [] = ""
join_texts sep (s ∷ []) = s
join_texts sep (s ∷ t ∷ texts) = s <> (sep <> join_texts sep (t ∷ texts))
