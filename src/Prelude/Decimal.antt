-- ===== src/Prelude/Decimal.antt =====
-- Natural numbers in decimal, and the number at the end of a text.
use Prim.Native.Nat.{ℕ, zero, suc, ◌+◌, ◌-◌, ◌*◌, ◌/◌, ◌%◌, ◌<◌}
use Prim.Native.Char.{code}
use Prim.Native.String.{String, ◌++◌}
use mathlib.Core.Path.{◌≡◌, ◌∙◌}
use mathlib.Core.Bool.{◌&&◌}
use native.Mathlib.Omega.{arith}
use text.Mathlib.TextLemmas.{nil-append, cons-append}
use yurt.Prelude.Tests.{ltb, leb, if◌then◌else◌}

digit : ℕ → String
digit zero = "0"
digit (suc zero) = "1"
digit (suc (suc zero)) = "2"
digit (suc (suc (suc zero))) = "3"
digit (suc (suc (suc (suc zero)))) = "4"
digit (suc (suc (suc (suc (suc zero))))) = "5"
digit (suc (suc (suc (suc (suc (suc zero)))))) = "6"
digit (suc (suc (suc (suc (suc (suc (suc zero))))))) = "7"
digit (suc (suc (suc (suc (suc (suc (suc (suc zero)))))))) = "8"
digit _ = "9"

-- The fuel bounds the number of digits.
digits : ℕ → ℕ → String
digits zero n = ""
digits (suc fuel) n =
    let front = digits fuel (n / 10) in if ltb n 10 then digit n else front ++ digit (n % 10)

-- A natural number in decimal.
unfoldable pub decimal : ℕ → String
unfolding digits digit
decimal n = digits (suc n) n

-- The number that the digits at the end of a text spell; 0 if it ends in another character.
abbrev next_number : ℕ → ℕ → ℕ
next_number n c = if leb b'0' c && leb c b'9' then n * 10 + (c - b'0') else 0

read_on : ℕ → String → ℕ
read_on n String.[] = n
read_on n (String.◌∷◌ c s) = read_on (next_number n (code c)) s

unfoldable pub trailing_number : String → ℕ
unfolding read_on
trailing_number s = read_on 0 s

read_on-append : (n : ℕ) (s t : String) → read_on n (s ++ t) ≡ read_on (read_on n s) t
unfolding read_on
read_on-append n String.[] t = rw nil-append
read_on-append n (String.◌∷◌ c s) t = rw cons-append (read_on-append (next_number n (code c)) s t)

read_on-digit : (n d : ℕ) → d < 10 → read_on n (digit d) ≡ n * 10 + d
unfolding read_on digit
read_on-digit n zero h = omega arith
read_on-digit n (suc zero) h = omega arith
read_on-digit n (suc (suc zero)) h = omega arith
read_on-digit n (suc (suc (suc zero))) h = omega arith
read_on-digit n (suc (suc (suc (suc zero)))) h = omega arith
read_on-digit n (suc (suc (suc (suc (suc zero))))) h = omega arith
read_on-digit n (suc (suc (suc (suc (suc (suc zero)))))) h = omega arith
read_on-digit n (suc (suc (suc (suc (suc (suc (suc zero))))))) h = omega arith
read_on-digit n (suc (suc (suc (suc (suc (suc (suc (suc zero)))))))) h = omega arith
read_on-digit n (suc (suc (suc (suc (suc (suc (suc (suc (suc zero))))))))) h = omega arith
read_on-digit n (suc (suc (suc (suc (suc (suc (suc (suc (suc (suc d)))))))))) h =
    absurd (omega arith)

read_on-digits : (fuel n : ℕ) → n < fuel → read_on 0 (digits fuel n) ≡ n
unfolding digits
read_on-digits zero n h = absurd (omega arith)
read_on-digits (suc fuel) n h = ground (
  arith,
  read_on-digit 0 n,
  read_on-append 0 (digits fuel (n / 10)) (digit (n % 10)),
  read_on-digits fuel (n / 10),
  read_on-digit (n / 10) (n % 10),
)

-- What stands before a separator does not matter.
pub trailing_number-dash : (s : String) (n : ℕ) → trailing_number (s ++ ("-" ++ decimal n)) ≡ n
unfolding trailing_number decimal read_on
trailing_number-dash s n =
    read_on-append 0 s ("-" ++ decimal n)
    ∙ read_on-append (read_on 0 s) "-" (decimal n)
    ∙ read_on-digits (suc n) n (omega arith)

pub trailing_number-dot : (s : String) (n : ℕ) → trailing_number (s ++ ("." ++ decimal n)) ≡ n
unfolding trailing_number decimal read_on
trailing_number-dot s n =
    read_on-append 0 s ("." ++ decimal n)
    ∙ read_on-append (read_on 0 s) "." (decimal n)
    ∙ read_on-digits (suc n) n (omega arith)
