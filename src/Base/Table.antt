-- ===== src/Base/Table.antt =====
-- A check of every value below a bound.
use Prim.Native.Nat.{ℕ, zero, suc, ◌<◌}
use mathlib.Core.Path.{◌≡◌}
use mathlib.Core.Bool.{Bool, true, ◌&&◌}
use native.Mathlib.Omega.{arith}

unfoldable pub every_below : (ℕ → Bool) → ℕ → Bool
every_below test zero = true
every_below test (suc i) = every_below test i && test i

pub every_below-true :
    (test : ℕ → Bool) (bound i : ℕ) → i < bound → every_below test bound ≡ true → test i ≡ true
unfolding every_below
every_below-true test (suc bound) i lt passed = ground (arith, every_below-true test bound i)
every_below-true test zero i lt passed = absurd (omega arith)
