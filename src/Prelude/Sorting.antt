-- ===== src/Prelude/Sorting.antt =====
-- `sort.Strings`: texts in the order of their code points, which is the order of their bytes.
use Prim.Native.Char.{code}
use Prim.Native.String.{String}
use mathlib.Core.Path.{◌≡◌}
use mathlib.Core.Bool.{Bool, true, false, ◌&&◌}
use mathlib.Core.List.{List, [], ◌∷◌}
use native.Mathlib.Omega.{arith}
use yurt.Prelude.Tests.{ltb, if◌then◌else◌}

unfoldable pub str_leb : String → String → Bool
str_leb String.[] t = true
str_leb (String.◌∷◌ c s) String.[] = false
str_leb (String.◌∷◌ c s) (String.◌∷◌ d t) =
    if ltb (code c) (code d) then true else if ltb (code d) (code c) then false else str_leb s t

unfoldable pub insert_sorted : String → List String → List String
insert_sorted s [] = s ∷ []
insert_sorted s (x ∷ xs) = if str_leb s x then s ∷ x ∷ xs else x ∷ insert_sorted s xs

-- `sort.Strings`; equal texts are the same text, so the choice of the algorithm does not show.
unfoldable pub sort_strings : List String → List String
unfolding insert_sorted
sort_strings [] = []
sort_strings (x ∷ xs) = insert_sorted x (sort_strings xs)

-- Every text is at most the one that follows it.
unfoldable pub is_sorted : List String → Bool
is_sorted [] = true
is_sorted (x ∷ []) = true
is_sorted (x ∷ y ∷ l) = str_leb x y && is_sorted (y ∷ l)

str_leb_total : (s t : String) → str_leb s t ≡ false → str_leb t s ≡ true
unfolding str_leb
str_leb_total String.[] t h = ground arith
str_leb_total (String.◌∷◌ c s) String.[] h = ground arith
str_leb_total (String.◌∷◌ c s) (String.◌∷◌ d t) h = ground (arith, str_leb_total s t)

is_sorted-insert_sorted :
    (s : String) (l : List String) → is_sorted l ≡ true → is_sorted (insert_sorted s l) ≡ true
unfolding is_sorted insert_sorted
is_sorted-insert_sorted s [] h = ground arith
is_sorted-insert_sorted s (x ∷ []) h = ground (arith, str_leb_total s x)
is_sorted-insert_sorted s (x ∷ y ∷ l) h =
    ground (arith, str_leb_total s x, str_leb_total s y, is_sorted-insert_sorted s (y ∷ l))

pub is_sorted-sort_strings : (l : List String) → is_sorted (sort_strings l) ≡ true
unfolding sort_strings is_sorted
is_sorted-sort_strings [] = ground arith
is_sorted-sort_strings (x ∷ l) =
    is_sorted-insert_sorted x (sort_strings l) (is_sorted-sort_strings l)
