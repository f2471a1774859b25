-- ===== src/Numbers/Atoi.antt =====
-- `atoi` of src/stdlib.c reads decimal numbers.
use native.Mathlib.Nat.{pow-suc, one-le-pow, add-mul, mul_assoc, mul-le-mul_left}
use sant_os.Prelude.{
  ℕ, suc, ◌+◌, ◌-◌, ◌*◌, ◌%◌, ◌^◌, ◌<◌, ◌≤◌, true, false, List, [], ◌∷◌, ◌++◌, ◌==◌, ◌≡◌, arith,
  refl, ap, length, u32, sub32, ◌∙◌,
}
use sant_os.Numbers.{isdigit, isspace, skip_space, read_digits, read_signed, atoi}

-- The number that digits stand for, in positional notation.
abbrev pub value : List ℕ → ℕ
value [] = 0
value (d ∷ ds) = (d - b'0') * 10 ^ length ds + value ds

abbrev pub AllDigits : List ℕ → Type 0
AllDigits [] = Unit {0}
AllDigits (d ∷ ds) = (isdigit d ≡ true) × AllDigits ds

abbrev pub AllSpace : List ℕ → Type 0
AllSpace [] = Unit {0}
AllSpace (c ∷ s) = (isspace c ≡ true) × AllSpace s

-- What follows does not begin with a digit.
abbrev pub EndsDigits : List ℕ → Type 0
EndsDigits [] = Unit {0}
EndsDigits (c ∷ s) = isdigit c ≡ false

skip_space-append : (sp s : List ℕ) → AllSpace sp → skip_space (sp ++ s) ≡ skip_space s
unfolding skip_space
skip_space-append [] s h = refl
skip_space-append (c ∷ sp) s h = rw h.0 (skip_space-append sp s h.1)

pub scale : (a d n : ℕ) → (a * 10 + d) * 10 ^ n ≡ a * 10 ^ suc n + d * 10 ^ n
scale a d n = omega (
  arith,
  add-mul (a * 10) d (10 ^ n),
  mul_assoc a 10 (10 ^ n),
  ap (λ (t : ℕ). a * t) (pow-suc 10 n),
  pow-suc 10 n,
)

read_digits_lem :
    (ds rest : List ℕ) (acc : ℕ)
    → AllDigits ds
    → EndsDigits rest
    → acc * 10 ^ length ds + value ds < 2 ^ 32
    → read_digits acc (ds ++ rest) ≡ acc * 10 ^ length ds + value ds
unfolding read_digits
read_digits_lem [] [] acc hd hr fits = omega arith
read_digits_lem [] (c ∷ rest) acc hd hr fits = rw hr (omega arith)
read_digits_lem (d ∷ ds) rest acc hd hr fits =
    let s = scale acc (d - 48) (length ds) in
    let next = acc * 10 + (d - 48) in
    let grows : next * 1 ≤ next * 10 ^ length ds =
      mul-le-mul_left next (one-le-pow (length ds) 10 (omega arith)) in
    let same : u32 next ≡ next = omega (arith, s, grows, fits) in
    let ih = read_digits_lem ds rest next hd.1 hr (omega (arith, s, fits)) in
    rw (hd.0, same) (ih ∙ omega (arith, s))

digit_head :
    (c : ℕ) → isdigit c ≡ true → (isspace c ≡ false) × ((c == b'-') ≡ false) × ((c == b'+') ≡ false)
unfolding isdigit isspace
digit_head c h = (ground arith, ground arith, ground arith)

module _ (sp ds rest : List ℕ) (d : ℕ) where
  abbrev number : List ℕ
  number = d ∷ ds

  -- White space, an optional sign, decimal digits of which there is at least one, and then the
  -- end or a character that is no digit: `atoi` returns the number that the digits stand for,
  -- and its negative as a word of 32 bits behind a minus sign. The number is below 2 ^ 31.
  pub atoi_lem :
      AllSpace sp
      → AllDigits number
      → EndsDigits rest
      → value number < 2 ^ 31
      → (atoi (sp ++ (number ++ rest)) ≡ value number)
        × (atoi (sp ++ (b'+' ∷ number ++ rest)) ≡ value number)
        × (atoi (sp ++ (b'-' ∷ number ++ rest)) ≡ (2 ^ 32 - value number) % 2 ^ 32)
  unfolding atoi read_signed skip_space isspace
  atoi_lem hs hd hr fits =
      let read = read_digits_lem number rest 0 hd hr (omega (arith, fits)) in
      let (no_space, no_minus, no_plus) = digit_head d hd.0 in
      let plain = skip_space-append sp (number ++ rest) hs in
      let plus = skip_space-append sp (b'+' ∷ number ++ rest) hs in
      let minus = skip_space-append sp (b'-' ∷ number ++ rest) hs in
      let read' : read_digits 0 (number ++ rest) ≡ value number = read ∙ omega arith in
      let starts : skip_space (number ++ rest) ≡ number ++ rest = rw no_space in
      let unsigned : read_signed (number ++ rest) ≡ value number = rw (no_minus, no_plus) read' in
      let word : sub32 0 (value number) ≡ (2 ^ 32 - value number) % 2 ^ 32 = omega (arith, fits) in
      (
        ap read_signed (plain ∙ starts) ∙ unsigned,
        ap read_signed plus ∙ read',
        ap read_signed minus ∙ ap (sub32 0) read' ∙ word,
      )
