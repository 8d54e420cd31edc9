-- ===== src/Base/Tables.antt =====
-- Facts about the numbers below a bound, checked at each of them.
use Prim.Native.Nat.{ℕ, zero, suc, ◌<◌}
use mathlib.Core.Path.{◌≡◌}
use mathlib.Core.Bool.{Bool, true, false}
use native.Mathlib.Omega.{arith}
use evmc.Base.Tests.{if◌then◌else◌}

unfoldable pub each_below : (ℕ → Bool) → ℕ → Bool
each_below test zero = true
each_below test (suc bound) = let rest = each_below test bound in if test bound then rest else false

-- A test that holds at each number holds at one of them.
pub each_below-at :
    (test : ℕ → Bool) (bound i : ℕ) → i < bound → each_below test bound ≡ true → test i ≡ true
unfolding each_below
each_below-at test zero i within passed = absurd (omega arith)
each_below-at test (suc bound) i within passed = ground (arith, each_below-at test bound i)
