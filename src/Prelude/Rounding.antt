-- ===== src/Prelude/Rounding.antt =====
-- Python's `round` and `Decimal.quantize` of a quotient: half to even.
use Prim.Native.Nat.{ℕ, ◌+◌, ◌*◌, ◌/◌, ◌%◌, ◌≤◌, ◌<◌}
use mathlib.Core.Path.{◌≡◌}
use native.Mathlib.Omega.{arith}
use native.Mathlib.Decide.{dec_lt}
use native.Mathlib.Nat.{div-add-mod', mul_comm, div-le_of_le-mul}
use esafe.Prelude.Tests.{ltb, ◌==◌, if◌then◌else◌}

unfoldable pub round_half_even : ℕ → ℕ → ℕ
round_half_even n d =
    let q = n / d in
    let r = n % d * 2 in
    if ltb r d then q else if ltb d r then q + 1 else if q % 2 == 0 then q else q + 1

no_remainder : (q r d m : ℕ) → m ≤ q → q * d + r ≤ m * d → r ≡ 0
no_remainder q r d m h k = grind arith

-- A quotient of at most m is not rounded past m.
pub round_half_even-le : (n d m : ℕ) → 0 < d → n ≤ m * d → round_half_even n d ≤ m
unfolding round_half_even
round_half_even-le n d m pos h = elim (dec_lt (n / d) m) [
  | yes less ↦ ground arith
  | no more ↦
      let exact : n % d ≡ 0 =
        no_remainder (n / d) (n % d) d m (omega arith) (omega (arith, div-add-mod' n d)) in
      let least : n / d ≤ m = div-le_of_le-mul d (rw (mul_comm d m) h) in ground arith
]
