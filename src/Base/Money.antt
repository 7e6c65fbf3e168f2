-- ===== src/Base/Money.antt =====
-- Decimal amounts and rates: `Decimal.quantize(Decimal("0.01"))` of Python's decimal module.
use gaking.Base.Tests.{ltb, ◌==◌, if◌then◌else◌}
use Prim.Native.Nat.{ℕ, ◌+◌, ◌*◌, ◌/◌, ◌%◌}
use mathlib.Core.Bool.{◌&&◌, ◌||◌}

-- n / d to the nearest number, a tie upwards: ROUND_HALF_UP.
unfoldable pub div_half_up : ℕ → ℕ → ℕ
div_half_up n d = if ltb (2 * (n % d)) d then n / d else n / d + 1

-- n / d to the nearest number, a tie to the even one: ROUND_HALF_EVEN, the default context's.
unfoldable pub div_half_even : ℕ → ℕ → ℕ
div_half_even n d =
    if ltb (2 * (n % d)) d || (2 * (n % d) == d && (n / d) % 2 == 0) then n / d else n / d + 1
