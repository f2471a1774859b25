-- ===== src/Numbers/Chars.antt =====
-- The classes of characters in src/ctype.c.
use sant_os.Prelude.{ℕ, true, false, ◌&&◌, ◌||◌, ◌≡◌, arith}
use sant_os.Numbers.{
  isdigit, isalpha, isalnum, isspace, isupper, islower, isxdigit, isprint, toupper, tolower,
}

-- `toupper` and `tolower` undo each other on letters, `toupper` leaves no small letter and
-- `tolower` no capital, and neither changes a character that is no letter.
pub toupper-tolower :
    (c : ℕ)
    → (toupper (tolower c) ≡ toupper c)
      × (tolower (toupper c) ≡ tolower c)
      × (islower (toupper c) ≡ false)
      × (isupper (tolower c) ≡ false)
      × (isalpha c ≡ false → (toupper c ≡ c) × (tolower c ≡ c))
unfolding toupper tolower islower isupper isalpha
toupper-tolower c =
    (ground arith, ground arith, ground arith, ground arith, λ h. (ground arith, ground arith))

-- A letter is a capital or a small letter and not both, and no letter is a digit; a hexadecimal
-- digit is a letter or a digit, and each of these can be printed and is no white space.
pub classes :
    (c : ℕ)
    → (isalpha c ≡ (isupper c || islower c))
      × ((isupper c && islower c) ≡ false)
      × ((isalpha c && isdigit c) ≡ false)
      × (isxdigit c ≡ true → isalnum c ≡ true)
      × (isalnum c ≡ true → (isprint c ≡ true) × (isspace c ≡ false))
unfolding isupper islower isalpha isdigit isxdigit isalnum isprint isspace
classes c =
    (ground arith, ground arith, ground arith, λ h. ground arith, λ h. (ground arith, ground arith))
