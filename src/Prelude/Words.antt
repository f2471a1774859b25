-- ===== src/Prelude/Words.antt =====
-- Unsigned words of a fixed width as native numbers, `int` as a sum of two signs, and flat memory.
use Prim.Native.Nat.{ℕ, ◌+◌, ◌-◌, ◌%◌, ◌^◌}
use mathlib.Core.Bool.{Bool, true, false}
use sant_os.Prelude.Tests.{◌==◌, if◌then◌else◌}

-- The casts `(uint8_t)`, `(uint16_t)`, `(uint32_t)` and `(uint64_t)`.
abbrev pub u8 : ℕ → ℕ
u8 n = n % 2 ^ 8

abbrev pub u16 : ℕ → ℕ
u16 n = n % 2 ^ 16

abbrev pub u32 : ℕ → ℕ
u32 n = n % 2 ^ 32

abbrev pub u64 : ℕ → ℕ
u64 n = n % 2 ^ 64

-- `a - b` on `uint32_t` and `uint64_t`.
abbrev pub sub32 : ℕ → ℕ → ℕ
sub32 a b = (a + 2 ^ 32 - b % 2 ^ 32) % 2 ^ 32

abbrev pub sub64 : ℕ → ℕ → ℕ
sub64 a b = (a + 2 ^ 64 - b % 2 ^ 64) % 2 ^ 64

-- Byte-addressed memory, and the same shape for the cells of any array.
abbrev pub Mem : Type 0
Mem = ℕ → ℕ

unfoldable pub store : Mem → ℕ → ℕ → Mem
store m a v b = if b == a then v else m b

-- A number under `if` in C.
abbrev pub nonzero : ℕ → Bool
nonzero n = if n == 0 then false else true
