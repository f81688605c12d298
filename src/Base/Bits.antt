-- ===== src/Base/Bits.antt =====
-- A Boolean test that holds of every number below a bound, by evaluation: the masks of single bytes
-- and words are compared with arithmetic this way.
use Prim.Native.Nat.{ℕ, zero, suc, ◌<◌}
use mathlib.Core.Path.{◌≡◌}
use mathlib.Core.Bool.{Bool, true, false}
use native.Mathlib.Omega.{arith}
use go_winio.Base.Tests.{if◌then◌else◌}

unfoldable pub tabulated : ℕ → (ℕ → Bool) → Bool
tabulated zero test = true
tabulated (suc bound) test = if test bound then tabulated bound test else false

pub tabulated_at :
    (bound : ℕ) (test : ℕ → Bool) (k : ℕ) → tabulated bound test ≡ true → k < bound → test k ≡ true
unfolding tabulated
tabulated_at zero test k e below = elim below [ ]
tabulated_at (suc bound) test k e below = grind (arith, tabulated_at bound test k)
