-- ===== src/Common/Decimal.antt =====
-- The decimal print of a number, as `%d` and `%u` give it.
use mathlib.Core.Path.{◌≡◌, refl}
use mathlib.Core.Bool.{false}
use native.Mathlib.Omega.{arith}
use Prim.Native.Nat.{◌<◌, ℕ, zero, suc, ◌+◌, ◌/◌, ◌%◌}
use mathlib.Core.List.{List, [], ◌∷◌}
use cssc.Common.Tests.{◌==◌, if◌then◌else◌}

-- The digits of `n` before `out`, for fuel from `n` on.
unfoldable pub digits : ℕ → ℕ → List ℕ → List ℕ
digits zero n out = out
digits (suc fuel) n out =
    let more = digits fuel (n / 10) ((b'0' + n % 10) ∷ out) in if n == 0 then out else more

unfoldable pub decimal : ℕ → List ℕ
unfolding digits
decimal n = if n == 0 then b'0' ∷ [] else digits n n []

pub digits_zero : (fuel : ℕ) (out : List ℕ) → digits fuel 0 out ≡ out
unfolding digits
digits_zero zero out = refl
digits_zero (suc fuel) out = refl

pub decimal_pos : (n : ℕ) → 0 < n → decimal n ≡ digits n n []
unfolding decimal
decimal_pos n h = let some : (n == 0) ≡ false = ground arith in rw some
