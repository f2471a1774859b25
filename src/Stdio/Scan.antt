-- ===== src/Stdio/Scan.antt =====
-- `scanf` of src/stdio.c, on the line that its call of `fgets` has read.
use sant_os.Prelude.{
  ℕ, zero, suc, ◌+◌, ◌-◌, ◌%◌, ◌^◌, ◌<◌, ◌≤◌, true, false, ◌||◌, Option, none, some, List, [], ◌∷◌,
  ◌++◌, ◌==◌, if◌then◌else◌, length, ◌≡◌, refl, arith,
}
use mathlib.Core.List.{append-nil}
use sant_os.Numbers.{isdigit, atoi}
use sant_os.Numbers.Atoi.{AllDigits, EndsDigits, value, atoi_lem}

-- What is stored through a pointer.
pub data Value : Type 0 where
  int char : ℕ → Value
  string : List ℕ → Value

unfoldable pub skip_tabs : List ℕ → List ℕ
skip_tabs [] = []
skip_tabs (c ∷ s) = let rest = skip_tabs s in if (c == 32) || (c == 9) then rest else c ∷ s

unfoldable pub skip_format : List ℕ → List ℕ
skip_format [] = []
skip_format (c ∷ s) =
    let rest = skip_format s in if (c == 32) || (c == 9) || (c == 10) then rest else c ∷ s

-- `while (isdigit(*buf) && i < 31)`: the digits, and what is behind them.
unfoldable pub take_digits : ℕ → List ℕ → List ℕ × List ℕ
take_digits zero s = ([], s)
take_digits (suc left) [] = ([], [])
take_digits (suc left) (c ∷ s) =
    let rest = take_digits left s in if isdigit c then (c ∷ rest.0, rest.1) else ([], c ∷ s)

-- `num_buf` with its sign.
unfoldable pub take_number : List ℕ → List ℕ × List ℕ
take_number [] = ([], [])
take_number (c ∷ s) =
    let signed = take_digits 30 s in
    if c == b'-' then (c ∷ signed.0, signed.1) else take_digits 31 (c ∷ s)

unfoldable pub take_word : List ℕ → List ℕ × List ℕ
take_word [] = ([], [])
take_word (c ∷ s) =
    let rest = take_word s in
    if (c == 32) || (c == 9) || (c == 10) then ([], c ∷ s) else (c ∷ rest.0, rest.1)

-- What a conversion stores, what it adds to the count, and the input behind it.
pub record Conversion : Type 0 where
  pub stored : Option Value
  pub counted : ℕ
  pub behind : List ℕ

unfoldable pub convert_int : List ℕ × List ℕ → Conversion
convert_int ([], s) = record { stored = none; counted = 0; behind = s }
convert_int (c ∷ digits, s) = record {
  stored = some (int (atoi (c ∷ digits)));
  counted = 1;
  behind = s;
}

unfoldable pub convert_string : List ℕ × List ℕ → Conversion
convert_string ([], s) = record { stored = some (string []); counted = 0; behind = s }
convert_string (c ∷ word, s) = record { stored = some (string (c ∷ word)); counted = 1; behind = s }

unfoldable pub convert_char : List ℕ → Conversion
convert_char [] = record { stored = none; counted = 0; behind = [] }
convert_char (c ∷ s) = record { stored = some (char c); counted = 1; behind = s }

unfoldable pub convert : ℕ → List ℕ → Conversion
convert f buf =
    if f == b'd'
    then convert_int (take_number buf)
    else if f == b's'
    then convert_string (take_word (skip_tabs buf))
    else if f == b'c'
    then convert_char buf
    else record { stored = none; counted = 0; behind = buf }

-- What the next character of a format, behind white space, asks for. `overrun` goes on behind the
-- end of the format, where a `%` ends it, or where white space ends it and the input has ended too.
pub data Directive : Type 0 where
  overrun finished : Directive
  matched : List ℕ → List ℕ → Directive
  conversion : ℕ → List ℕ → Directive

unfoldable pub percent : List ℕ → Directive
percent [] = overrun
percent (f ∷ fmt) = conversion f fmt

unfoldable pub literal : ℕ → List ℕ → List ℕ → Directive
literal f fmt [] = finished
literal f fmt (b ∷ buf) = if f == b then matched fmt buf else finished

unfoldable pub directive : List ℕ → List ℕ → Directive
directive [] [] = overrun
directive [] (b ∷ buf) = finished
directive (f ∷ fmt) buf = if f == b'%' then percent fmt else literal f fmt buf

-- What the conversions of a format have stored, in their order, and the count. `none` is a format
-- that is read behind its end, or a loop that has used up its fuel.
unfoldable pub scan_format :
    ℕ → List ℕ → List ℕ → List (Option Value) → ℕ → Option (List (Option Value) × ℕ)
scan_format zero fmt buf stored count = none
scan_format (suc fuel) [] buf stored count = some (stored, count)
scan_format (suc fuel) (f ∷ fmt) buf stored count = elim (directive (skip_format (f ∷ fmt)) buf) [
  | overrun ↦ none
  | finished ↦ some (stored, count)
  | matched fmt' buf' ↦ scan_format fuel fmt' buf' stored count
  | conversion g fmt' ↦
      let c = convert g (skip_tabs buf) in
      scan_format fuel fmt' c.behind (stored ++ (c.stored ∷ [])) (count + c.counted)
]

-- Digits are taken up to what is no digit.
take_digits-append :
    (ds rest : List ℕ) (left : ℕ)
    → AllDigits ds
    → EndsDigits rest
    → length ds ≤ left
    → take_digits left (ds ++ rest) ≡ (ds, rest)
unfolding take_digits
take_digits-append [] [] zero hd hr fits = refl
take_digits-append [] [] (suc left) hd hr fits = refl
take_digits-append [] (c ∷ rest) zero hd hr fits = refl
take_digits-append [] (c ∷ rest) (suc left) hd hr fits = rw hr refl
take_digits-append (d ∷ ds) rest zero hd hr fits = absurd (omega arith)
take_digits-append (d ∷ ds) rest (suc left) hd hr fits =
    rw (hd.0, take_digits-append ds rest left hd.1 hr (omega arith)) refl

digit_no_blank :
    (c : ℕ) → isdigit c ≡ true → (((c == 32) || (c == 9)) ≡ false) × ((c == b'-') ≡ false)
unfolding isdigit
digit_no_blank c h = (ground arith, ground arith)

abbrev pub d_format : List ℕ
d_format = b'%' ∷ b'd' ∷ []

number_lem :
    (d : ℕ) (ds : List ℕ)
    → AllDigits (d ∷ ds)
    → value (d ∷ ds) < 2 ^ 31
    → (atoi (d ∷ ds) ≡ value (d ∷ ds)) × (atoi (b'-' ∷ d ∷ ds) ≡ (2 ^ 32 - value (d ∷ ds)) % 2 ^ 32)
number_lem d ds hd small =
    let (plain, plus, minus) = atoi_lem [] ds [] d tt hd tt small in
    let whole = append-nil (d ∷ ds) in (rw whole at plain, rw whole at minus)

module _ (d : ℕ) (ds rest : List ℕ) where
  -- `scanf("%d", ...)` on a line that begins with one to thirty decimal digits for a number below
  -- 2 ^ 31 stores this number and returns 1. Behind a minus sign it stores the negative, as a word of
  -- 32 bits.
  pub scan_number :
      AllDigits (d ∷ ds)
      → EndsDigits rest
      → length (d ∷ ds) ≤ 30
      → value (d ∷ ds) < 2 ^ 31
      → (scan_format 3 d_format ((d ∷ ds) ++ rest) [] 0
          ≡ some (some (int (value (d ∷ ds))) ∷ [], 1))
        × (scan_format 3 d_format (b'-' ∷ ((d ∷ ds) ++ rest)) [] 0
            ≡ some (some (int ((2 ^ 32 - value (d ∷ ds)) % 2 ^ 32)) ∷ [], 1))
  unfolding scan_format directive percent literal skip_format skip_tabs convert take_number
      convert_int
  scan_number hd hr short small =
      let (no_blank, no_minus) = digit_no_blank d hd.0 in
      let plain = take_digits-append (d ∷ ds) rest 31 hd hr (omega arith) in
      let signed = take_digits-append (d ∷ ds) rest 30 hd hr short in
      let (number, negative) = number_lem d ds hd small in
      (rw (no_blank, no_minus, plain, number) refl, rw (signed, negative) refl)
