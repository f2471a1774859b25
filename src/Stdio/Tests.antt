-- ===== src/Stdio/Tests.antt =====
-- Tests of the model of src/stdio.c, and the theorems at concrete inputs.
use sant_os.Prelude.{ℕ, ◌-◌, ◌^◌, Mem, store, Option, none, some, List, [], ◌∷◌, ◌≡◌, refl, arith}
use mathlib.Core.Option.{map}
use sant_os.Numbers.{isdigit}
use sant_os.Stdio.{Read, gets, gets_from, fgets, fgets_from, is_printable}
use sant_os.Stdio.Lines.{typed, Agrees, fgets-Agrees}
use sant_os.Stdio.Scan.{
  int, string, char, scan_format, directive, percent, literal, skip_format, skip_tabs, convert,
  take_word, convert_string, convert_char, d_format, scan_number,
}

abbrev blank_memory : Mem
blank_memory a = 0xEE

-- a, b, backspace, Enter.
abbrev keys : List ℕ
keys = 97 ∷ 98 ∷ 8 ∷ 10 ∷ 99 ∷ []

got :
    (r : Read) × (gets keys blank_memory ≡ some r)
    × (r.str 0 ≡ 97)
    × (r.str 1 ≡ 0)
    × (r.keys ≡ 99 ∷ [])
unfolding gets gets_from store
got = (_, refl, refl, refl, refl)

waits : fgets 10 (97 ∷ []) blank_memory ≡ none
unfolding fgets fgets_from is_printable
waits = refl

-- "%s %c" on "hi x".
two_values :
    scan_format 9 (b'%' ∷ b's' ∷ b' ' ∷ b'%' ∷ b'c' ∷ []) (b'h' ∷ b'i' ∷ b' ' ∷ b'x' ∷ 10 ∷ []) [] 0
    ≡ some (some (string (b'h' ∷ b'i' ∷ [])) ∷ some (char b'x') ∷ [], 2)
unfolding scan_format directive percent literal skip_format skip_tabs convert take_word
    convert_string convert_char
two_values = refl

-- A format that ends in white space is read behind its end where the line has no newline.
behind : scan_format 9 (b'%' ∷ b'c' ∷ b' ' ∷ []) (b'x' ∷ []) [] 0 ≡ none
unfolding scan_format directive percent literal skip_format skip_tabs convert convert_char
behind = refl

fgets-Agrees_example :
    (o : Option Read) × (fgets 10 keys blank_memory ≡ map some o)
    × Agrees 9 blank_memory o (typed 9 [] keys)
fgets-Agrees_example = fgets-Agrees 9 keys blank_memory

scan_number_example :
    (scan_format 3 d_format (b'4' ∷ b'2' ∷ 10 ∷ []) [] 0 ≡ some (some (int 42) ∷ [], 1))
    × (scan_format 3 d_format (b'-' ∷ b'4' ∷ b'2' ∷ 10 ∷ []) [] 0
        ≡ some (some (int (2 ^ 32 - 42)) ∷ [], 1))
unfolding isdigit
scan_number_example =
    scan_number b'4' (b'2' ∷ []) (10 ∷ []) (refl, (refl, tt)) refl (omega arith) (omega arith)
