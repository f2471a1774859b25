-- ===== src/Sasm/Stuck.antt =====
-- The lines of source at which the loop of src/programs/sasm/sasm.c does not go on.
use sant_os.Prelude.{
  ℕ, ◌<◌, ◌≤◌, false, none, List, [], ◌∷◌, ◌++◌, ◌≡◌, ◌≢◌, refl, arith, length, get_or,
  Option-cases, inl, inr, ◌∙◌, ap,
}
use sant_os.Sasm.{
  Message, continued, invalid_register, push_word, pop_word, names, parse_register, encode,
  encode_stack, is_skipped, process_line, cut_line, ends_line, ends_token, is_blank, Asm, assemble,
  at_end,
}
use sant_os.Sasm.Encode.{parse_register_lem}
use sant_os.Sasm.Tokens.{
  AllPlain, plain-AllPlain, tokens_two, IsLine, plain-IsLine, IsLine-append, cut_line-append,
}
use sant_os.Sasm.Program.{take_short}
use sant_os.Sasm.Ends.{outcome, IsStuck, assemble_stuck}

-- A word of at most 250 characters that names no register.
pub record IsNoRegister (name : List ℕ) : Type 0 where
  pub word : AllPlain name
  pub some_char : 0 < length name
  pub short : length name ≤ 250
  pub no_register : (r : ℕ) → r < 16 → name ≢ get_or names r []

-- Source that begins with a blank line, a comment, or a line that pushes or pops what is no
-- register.
pub data StopsAt : List ℕ → Type 0 where
  newline : (s : List ℕ) → StopsAt (10 ∷ s)
  carriage_return : (s : List ℕ) → StopsAt (13 ∷ s)
  semicolon : (s : List ℕ) → StopsAt (b';' ∷ s)
  hash_sign : (s : List ℕ) → StopsAt (b'#' ∷ s)
  bad_push :
      (name rest : List ℕ)
      → IsNoRegister name
      → StopsAt ((push_word ++ (b' ' ∷ name)) ++ (10 ∷ rest))
  bad_pop :
      (name rest : List ℕ)
      → IsNoRegister name
      → StopsAt ((pop_word ++ (b' ' ∷ name)) ++ (10 ∷ rest))

no_parse :
    (name : List ℕ) → ((r : ℕ) → r < 16 → name ≢ get_or names r []) → parse_register name ≡ none
no_parse name h = elim (Option-cases (parse_register name)) [
  | inl fails ↦ fails
  | inr (r, parsed) ↦
      let (small, same) = (parse_register_lem name r).0 parsed in absurd (h r small same)
]

-- A short line without a line end is processed as it is.
outcome_line :
    (a : Asm) (line rest : List ℕ)
    → a.line_start ≡ line ++ (10 ∷ rest)
    → IsLine line
    → length line ≤ 255
    → outcome a ≡ process_line a.line_num line
outcome_line a line rest at one short =
    rw (at, cut_line-append line rest one, take_short 255 line short) refl

-- A line of a word and what is no register comes to an error, and the loop says `continue`.
record Complains (word name : List ℕ) : Type 0 where
  one_line : IsLine (word ++ (b' ' ∷ name))
  fits : length (word ++ (b' ' ∷ name)) ≤ 255
  goes_on :
      (n : ℕ) → process_line n (word ++ (b' ' ∷ name)) ≡ continued (invalid_register n name ∷ [])

push-Complains : (name : List ℕ) → IsNoRegister name → Complains push_word name
unfolding process_line is_skipped encode encode_stack ends_token ends_line is_blank
push-Complains [] h = absurd (let p = h.some_char in omega arith)
push-Complains (c ∷ w) h =
    let plain_word : AllPlain push_word = plain-AllPlain push_word refl in
    let split = tokens_two b'p' (b'u' ∷ b's' ∷ b'h' ∷ []) c w plain_word h.word in
    let short = h.short in
    let tail : IsLine (b' ' ∷ (c ∷ w)) = (refl, plain-IsLine (c ∷ w) h.word) in
    record {
      one_line = IsLine-append push_word (b' ' ∷ (c ∷ w)) (plain-IsLine push_word plain_word) tail;
      fits = omega arith;
      goes_on = λ n. rw (split, no_parse (c ∷ w) (λ r lt. h.no_register r lt)) refl;
    }

pop-Complains : (name : List ℕ) → IsNoRegister name → Complains pop_word name
unfolding process_line is_skipped encode encode_stack ends_token ends_line is_blank
pop-Complains [] h = absurd (let p = h.some_char in omega arith)
pop-Complains (c ∷ w) h =
    let plain_word : AllPlain pop_word = plain-AllPlain pop_word refl in
    let split = tokens_two b'p' (b'o' ∷ b'p' ∷ []) c w plain_word h.word in
    let short = h.short in
    let tail : IsLine (b' ' ∷ (c ∷ w)) = (refl, plain-IsLine (c ∷ w) h.word) in
    record {
      one_line = IsLine-append pop_word (b' ' ∷ (c ∷ w)) (plain-IsLine pop_word plain_word) tail;
      fits = omega arith;
      goes_on = λ n. rw (split, no_parse (c ∷ w) (λ r lt. h.no_register r lt)) refl;
    }

line_left : (word name rest : List ℕ) → at_end ((word ++ (b' ' ∷ name)) ++ (10 ∷ rest)) ≡ false
line_left [] name rest = refl
line_left (c ∷ word) name rest = refl

complained :
    (word name rest : List ℕ) (a : Asm)
    → a.line_start ≡ (word ++ (b' ' ∷ name)) ++ (10 ∷ rest)
    → Complains word name
    → IsStuck a
complained word name rest a at h = record {
  more = ap at_end at ∙ line_left word name rest;
  messages = invalid_register a.line_num name ∷ [];
  continues =
      outcome_line a (word ++ (b' ' ∷ name)) rest at h.one_line h.fits ∙ h.goes_on a.line_num;
}

StopsAt-IsStuck :
    (s : List ℕ) (num : ℕ) (output : List ℕ) (printed : List Message)
    → StopsAt s
    → IsStuck (record { line_start = s; line_num = num; output = output; printed = printed })
unfolding process_line is_skipped cut_line ends_line
StopsAt-IsStuck _ num output printed (newline s) = record {
  more = refl;
  messages = [];
  continues = refl;
}
StopsAt-IsStuck _ num output printed (carriage_return s) = record {
  more = refl;
  messages = [];
  continues = refl;
}
StopsAt-IsStuck _ num output printed (semicolon s) = record {
  more = refl;
  messages = [];
  continues = refl;
}
StopsAt-IsStuck _ num output printed (hash_sign s) = record {
  more = refl;
  messages = [];
  continues = refl;
}
StopsAt-IsStuck _ num output printed (bad_push name rest h) =
    complained push_word name rest _ refl (push-Complains name h)
StopsAt-IsStuck _ num output printed (bad_pop name rest h) =
    complained pop_word name rest _ refl (pop-Complains name h)

-- Where the rest of the source begins with a blank line, a comment, or a push or pop of a word of at
-- most 250 characters that is no register, the loop goes round for ever: it ends with no fuel.
pub assemble-StopsAt : (fuel : ℕ) (a : Asm) → StopsAt a.line_start → assemble fuel a ≡ none
assemble-StopsAt fuel a h =
    assemble_stuck fuel a (StopsAt-IsStuck a.line_start a.line_num a.output a.printed h)
