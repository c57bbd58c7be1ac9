-- ===== src/Prelude/Bits.antt =====
-- Small ranges are decided value by value, which is how the facts on bits of a byte are proved.
use Prim.Native.Nat.{ℕ, zero, suc, ◌<◌}
use mathlib.Core.Path.{◌≡◌}
use mathlib.Core.Bool.{Bool, true, false}
use native.Mathlib.Omega.{arith}
use lua_t.Prelude.Tests.{if◌then◌else◌}

-- Whether the test holds of each number under the bound.
unfoldable pub tested_under : (ℕ → Bool) → ℕ → Bool
tested_under test zero = true
tested_under test (suc bound) = if test bound then tested_under test bound else false

pub tested_under_lem :
    (test : ℕ → Bool) (bound : ℕ) {value : ℕ}
    → value < bound
    → tested_under test bound ≡ true
    → test value ≡ true
unfolding tested_under
tested_under_lem test zero under all = absurd (omega (arith, under))
tested_under_lem test (suc bound) {value = v} under all =
    ground (arith, under, all, tested_under_lem test bound {value = v})
