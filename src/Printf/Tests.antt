-- ===== src/Printf/Tests.antt =====
-- Tests of the model of src/printf.c, and the theorem at a concrete input.
use sant_os.Prelude.{ℕ, some, List, [], ◌∷◌, ◌≡◌, arith, refl}
use sant_os.Numbers.{atoi}
use sant_os.Printf.{push_digits, print_unsigned, print_negative, print_signed}
use sant_os.Printf.Decimal.{atoi-print_signed}

hexadecimal : print_unsigned 16 0xB8A ≡ some (b'B' ∷ b'8' ∷ b'A' ∷ [])
unfolding print_unsigned push_digits
hexadecimal = refl

negative : print_signed 4294967254 ≡ some (b'-' ∷ b'4' ∷ b'2' ∷ [])
unfolding print_signed print_negative push_digits
negative = refl

atoi-print_signed_example :
    (s : List ℕ) × (print_signed 4294967254 ≡ some s) × (atoi s ≡ 4294967254)
atoi-print_signed_example = atoi-print_signed 4294967254 (omega arith) (omega arith)
