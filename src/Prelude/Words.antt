-- ===== src/Prelude/Words.antt =====
-- Go's fixed-width integers as bit patterns: an `int` is a number below 2^64, an `int32` one below
-- 2^32, and both wrap. A negative value stands above the middle of its range.
use Prim.Native.Nat.{ℕ, ◌+◌, ◌-◌, ◌%◌}
use Prim.Native.String.{String, ◌++◌}
use yurt.Prelude.Decimal.{decimal}
use yurt.Prelude.Tests.{ltb, if◌then◌else◌}

-- 2^64, 2^63, 2^32 and 2^31
abbrev pub int_mod : ℕ
int_mod = 18446744073709551616

abbrev pub int_half : ℕ
int_half = 9223372036854775808

abbrev pub int32_mod : ℕ
int32_mod = 4294967296

abbrev pub int32_half : ℕ
int32_half = 2147483648

abbrev pub add_int : ℕ → ℕ → ℕ
add_int a b = (a + b) % int_mod

abbrev pub sub_int : ℕ → ℕ → ℕ
sub_int a b = (a + int_mod - b) % int_mod

abbrev pub add_int32 : ℕ → ℕ → ℕ
add_int32 a b = (a + b) % int32_mod

-- `int32(x)` of an `int`
abbrev pub int32_of_int : ℕ → ℕ
int32_of_int x = x % int32_mod

-- `int(x)` of an `int32`: the sign is extended
abbrev pub int_of_int32 : ℕ → ℕ
int_of_int32 x = if ltb x int32_half then x else x + (int_mod - int32_mod)

-- `%d` of an `int`
unfoldable pub show_int : ℕ → String
unfolding decimal
show_int n = if ltb n int_half then decimal n else "-" ++ decimal (int_mod - n)
