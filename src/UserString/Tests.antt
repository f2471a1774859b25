-- ===== src/UserString/Tests.antt =====
-- Tests of the model of programs/lib/string.c, and the theorem at a concrete input.
use sant_os.Prelude.{ℕ, Mem, store, none, some, List, [], ◌∷◌, ◌≡◌, refl, arith, get_or}
use sant_os.Prelude.Int.{pos, negsuc}
use sant_os.Strings.{IsString}
use sant_os.UserString.{
  is_delim, skip_delims, token_end, Token, cut_token, token_at, current, strtok, strncmp,
  strncmp_from,
}
use sant_os.UserString.Tokens.{Gives, behind_delims, strtok-Gives}

-- ` ab c` at address 0.
abbrev sentence : List ℕ
sentence = b' ' ∷ b'a' ∷ b'b' ∷ b' ' ∷ b'c' ∷ []

abbrev memory : Mem
memory a = get_or sentence a 0

abbrev blank : List ℕ
blank = b' ' ∷ []

sentence-IsString : IsString memory 0 sentence
sentence-IsString = (
  refl,
  omega arith,
  (refl, omega arith, (refl, omega arith, (refl, omega arith, (refl, omega arith, refl)))),
)

first_call :
    (m : Mem) × (strtok 6 blank (some 0) memory none
      ≡ some (record { bytes = m; strtok_state = some 4; token_start = some 1 }))
unfolding strtok current skip_delims token_at token_end cut_token is_delim
first_call = (store memory 3 0, refl)

last_call :
    strtok 6 blank none memory (some 4)
    ≡ some (record { bytes = memory; strtok_state = none; token_start = some 4 })
unfolding strtok current skip_delims token_at token_end cut_token is_delim
last_call = refl

no_string :
    strtok 6 blank none memory none
    ≡ some (record { bytes = memory; strtok_state = none; token_start = none })
unfolding strtok current
no_string = refl

same_prefix : strncmp memory 0 3 1 ≡ pos 0
unfolding strncmp strncmp_from
same_prefix = refl

different : strncmp memory 0 3 2 ≡ negsuc 1
unfolding strncmp strncmp_from
different = refl

strtok-Gives_example :
    (t : Token) × (strtok 6 blank (some 0) memory none ≡ some t)
    × Gives memory blank t (behind_delims blank sentence)
unfolding current
strtok-Gives_example =
    strtok-Gives sentence 6 blank (some 0) memory none 0 refl sentence-IsString (omega arith)
