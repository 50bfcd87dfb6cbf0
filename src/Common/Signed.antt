-- ===== src/Common/Signed.antt =====
-- Signed 64 bit integers, by their bit patterns.
use Prim.Native.Nat.{ℕ, ◌+◌, ◌-◌, ◌/◌, ◌%◌}
use mathlib.Core.Bool.{Bool}
use hadock.Common.Tests.{ltb, leb, if◌then◌else◌}

-- x / d of an int64 x and a positive constant d, which rounds to zero.
unfoldable pub int64_div : ℕ → ℕ → ℕ
int64_div x d =
    if ltb x 9223372036854775808
    then x / d
    else (18446744073709551616 - (18446744073709551616 - x) / d) % 18446744073709551616

-- x >= y, of the int64 x and y.
abbrev pub int64_ge : ℕ → ℕ → Bool
int64_ge x y =
    leb ((y + 9223372036854775808) % 18446744073709551616)
      ((x + 9223372036854775808) % 18446744073709551616)
