-- ===== src/Prelude/Int.antt =====
-- Signed numbers over the native ones, for the differences that C computes in `int`.
use Prim.Native.Nat.{ℕ, ◌-◌}
use mathlib.Core.Path.{◌≡◌}
use mathlib.Core.Bool.{Bool, true, false}
use sant_os.Prelude.Tests.{leb, ltb, if◌then◌else◌}
use native.Mathlib.Omega.{arith}

pub data ℤ : Type 0 where
  pos negsuc : ℕ → ℤ

-- `a - b` of two bytes that are promoted to `int`.
abbrev pub diff : ℕ → ℕ → ℤ
diff a b = if leb b a then pos (a - b) else negsuc (b - a - 1)

pub diff-zero : (a b : ℕ) → diff a b ≡ pos 0 → a ≡ b
diff-zero a b h = ground arith

pub diff_self : (a : ℕ) → diff a a ≡ pos 0
diff_self a = ground arith

-- Whether a signed number is below 0.
abbrev pub below_zero : ℤ → Bool
below_zero (pos n) = false
below_zero (negsuc n) = true

pub below_zero-diff : (a b : ℕ) → below_zero (diff a b) ≡ ltb a b
below_zero-diff a b = ground arith
