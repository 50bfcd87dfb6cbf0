-- ===== src/Common/Division.antt =====
-- Division step by step: what loops do that take a fixed amount at a time.
use Prim.Native.Nat.{ℕ, suc, ◌+◌, ◌*◌, ◌-◌, ◌/◌, ◌%◌, ◌≤◌, ◌<◌}
use mathlib.Core.Path.{◌≡◌}
use native.Mathlib.Omega.{arith}
use native.Mathlib.Nat.{div-add-mod, mul-le-mul_left}
use hadock.Common.Tests.{leb, leb→le, Bool-cases}
use mathlib.Core.Logic.{◌≢◌, inl, inr}

pub div-step : (n s : ℕ) → 0 < s → s ≤ n → (n / s ≡ suc ((n - s) / s)) × (n % s ≡ (n - s) % s)
div-step n s h k = (grind arith, grind arith)

pub div-small : (n s : ℕ) → n < s → (n / s ≡ 0) × (n % s ≡ n)
div-small n s h = (grind arith, grind arith)

-- Two numbers less than n apart have different remainders.
pub mod-apart : (i j n : ℕ) → i < j → j < i + n → (j % n) ≢ (i % n)
mod-apart i j n l m e = elim (Bool-cases (leb (j / n) (i / n))) [
  | inl q ↦
      omega (arith, div-add-mod i n, div-add-mod j n, mul-le-mul_left n (leb→le (j / n) (i / n) q))
  | inr q ↦
      let above : i / n + 1 ≤ j / n = ground arith in
      let step : n * (i / n + 1) ≡ n * (i / n) + n = omega arith in
      omega (arith, div-add-mod i n, div-add-mod j n, mul-le-mul_left n above, step)
]
