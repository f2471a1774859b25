-- ===== src/Printf.antt =====
-- The numbers in src/printf.c: `print_signed` and `print_unsigned`, as the characters that they
-- put. An `int` is its word of 32 bits.
pub mod Decimal
mod Tests
use sant_os.Prelude.{
  ℕ, zero, suc, ◌/◌, ◌%◌, ◌^◌, Bool, true, false, Option, none, some, List, [], ◌∷◌, ◌==◌, leb,
  if◌then◌else◌, get_or, sub32,
}

-- `"0123456789ABCDEF"`, of which `print_signed` has the first ten.
abbrev pub digits : List ℕ
digits =
    b'0' ∷ b'1' ∷ b'2' ∷ b'3' ∷ b'4' ∷ b'5' ∷ b'6' ∷ b'7' ∷ b'8' ∷ b'9' ∷ b'A' ∷ b'B' ∷ b'C' ∷ b'D'
    ∷ b'E' ∷ b'F' ∷ []

-- `while (num > 0)`, and the loop that prints the buffer in reverse, after which the digit that
-- was stored last comes first. There is one round for each of the 32 places of the buffer, and
-- `none` is a number that needs more.
unfoldable pub push_digits : ℕ → ℕ → ℕ → List ℕ → Option (List ℕ)
push_digits base zero num later = if num == 0 then some later else none
push_digits base (suc left) num later =
    let rest = push_digits base left (num / base) (get_or digits (num % base) 0 ∷ later) in
    if num == 0 then some later else rest

unfoldable pub print_unsigned : ℕ → ℕ → Option (List ℕ)
print_unsigned base num = if num == 0 then some (b'0' ∷ []) else push_digits base 32 num []

-- `num = -num`, and `putc('-')`. The negative of the least `int` is that number again, with which
-- the loop is not entered.
unfoldable pub print_negative : ℕ → Option (List ℕ)
print_negative num =
    let positive = sub32 0 num in
    elim (if leb (2 ^ 31) positive then some [] else push_digits 10 32 positive []) [
      | none ↦ none
      | some s ↦ some (b'-' ∷ s)
    ]

unfoldable pub print_signed : ℕ → Option (List ℕ)
print_signed num =
    if num == 0
    then some (b'0' ∷ [])
    else if leb (2 ^ 31) num
    then print_negative num
    else push_digits 10 32 num []
