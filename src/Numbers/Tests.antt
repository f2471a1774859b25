-- ===== src/Numbers/Tests.antt =====
-- Tests of the model of src/ctype.c and src/stdlib.c, and the theorems at concrete inputs.
use sant_os.Prelude.{◌<◌, true, false, ◌&&◌, ◌||◌, [], ◌∷◌, ◌≡◌, arith, refl}
use sant_os.Numbers.{
  isdigit, isalpha, isalnum, isspace, isupper, islower, isxdigit, isprint, toupper, tolower,
  skip_space, read_digits, read_signed, atoi, srand, rand,
}
use sant_os.Numbers.Chars.{toupper-tolower, classes}
use sant_os.Numbers.Atoi.{AllDigits, atoi_lem}
use sant_os.Numbers.Random.{seed_after, rand_low_bits}

minus_forty_two : atoi (32 ∷ b'-' ∷ b'4' ∷ b'2' ∷ b'x' ∷ []) ≡ 4294967254
unfolding atoi skip_space read_signed read_digits isspace isdigit
minus_forty_two = refl

first_numbers : ((rand (srand 1)).1 ≡ 16838) × ((rand (seed_after 1 1)).1 ≡ 5758)
unfolding rand srand seed_after
first_numbers = (refl, refl)

toupper-tolower_case :
    (toupper (tolower 77) ≡ toupper 77)
    × (tolower (toupper 77) ≡ tolower 77)
    × (islower (toupper 77) ≡ false)
    × (isupper (tolower 77) ≡ false)
    × (isalpha 77 ≡ false → (toupper 77 ≡ 77) × (tolower 77 ≡ 77))
toupper-tolower_case = toupper-tolower 77

classes_case :
    (isalpha 70 ≡ (isupper 70 || islower 70))
    × ((isupper 70 && islower 70) ≡ false)
    × ((isalpha 70 && isdigit 70) ≡ false)
    × (isxdigit 70 ≡ true → isalnum 70 ≡ true)
    × (isalnum 70 ≡ true → (isprint 70 ≡ true) × (isspace 70 ≡ false))
classes_case = classes 70

two_digits : AllDigits (b'4' ∷ b'2' ∷ [])
unfolding isdigit
two_digits = (refl, (refl, tt))

atoi_lem_case :
    (atoi (32 ∷ b'4' ∷ b'2' ∷ b'x' ∷ []) ≡ 42)
    × (atoi (32 ∷ b'+' ∷ b'4' ∷ b'2' ∷ b'x' ∷ []) ≡ 42)
    × (atoi (32 ∷ b'-' ∷ b'4' ∷ b'2' ∷ b'x' ∷ []) ≡ 4294967254)
unfolding isspace isdigit
atoi_lem_case =
    atoi_lem (32 ∷ []) (b'2' ∷ []) (b'x' ∷ []) b'4' (refl, tt) two_digits refl (omega arith)

rand_low_bits_case :
    ((rand (seed_after 3 1)).1 ≡ (rand (seed_after 3 2147483649)).1)
    × ((rand (seed_after 3 1)).1 < 32768)
rand_low_bits_case = rand_low_bits 3 1 2147483649 refl
