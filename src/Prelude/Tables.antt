-- ===== src/Prelude/Tables.antt =====
-- Finite tables: a law of the numbers below a bound, checked by evaluation at each.
use Prim.Native.Nat.{ℕ, zero, suc, ◌<◌}
use mathlib.Core.Path.{◌≡◌}
use mathlib.Core.Bool.{Bool, true, ◌&&◌}
use native.Mathlib.Omega.{arith}

unfoldable pub holds_below : (ℕ → Bool) → ℕ → Bool
holds_below law zero = true
holds_below law (suc top) = law top && holds_below law top

pub holds_at :
    (law : ℕ → Bool) (bound place : ℕ)
    → place < bound
    → holds_below law bound ≡ true
    → law place ≡ true
unfolding holds_below
holds_at law zero place inside table = absurd (omega arith)
holds_at law (suc top) place inside table = ground (arith, holds_at law top place)
