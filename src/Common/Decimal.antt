-- ===== src/Common/Decimal.antt =====
-- Numbers in decimal, as fmt prints them.
use Prim.Native.Nat.{ℕ, zero, suc, ◌+◌, ◌-◌, ◌/◌, ◌%◌}
use mathlib.Core.List.{[], ◌∷◌, ◌++◌}
use hadock.Common.Tests.{ltb, if◌then◌else◌}
use hadock.Common.Lists.{length, replicate}
use hadock.Common.Endian.{Bytes}

-- The fuel bounds the digits; a number has fewer digits than it counts, or one.
digits : ℕ → ℕ → Bytes
digits zero n = []
digits (suc fuel) n =
    let rest = digits fuel (n / 10) in (if ltb n 10 then [] else rest) ++ ((48 + n % 10) ∷ [])

-- fmt.Sprint(n)
unfoldable pub dec : ℕ → Bytes
unfolding digits
dec n = digits (suc n) n

-- fmt.Sprintf("%0wd", n)
unfoldable pub padded : ℕ → ℕ → Bytes
unfolding dec
padded w n = replicate (w - length (dec n)) 48 ++ dec n
