-- ===== src/Sasm/Tokens.antt =====
-- How src/programs/sasm/sasm.c splits a line into tokens.
use sant_os.Prelude.{
  ℕ, suc, ◌+◌, ◌≤◌, Bool, true, false, ◌&&◌, not, List, [], ◌∷◌, ◌++◌, ◌≡◌, refl, arith, length,
  get_or, ap, ◌∙◌,
}
use sant_os.Sasm.{
  is_blank, ends_token, skip_blanks, skip_separators, token, operands, tokens, ends_line, cut_line,
}

-- No character of a word ends a token or a line.
abbrev pub AllPlain : List ℕ → Type 0
AllPlain [] = Unit {0}
AllPlain (c ∷ s) = (ends_token c ≡ false) × (ends_line c ≡ false) × AllPlain s

-- The same as a test.
abbrev pub plain : List ℕ → Bool
plain [] = true
plain (c ∷ s) = not (ends_token c) && (not (ends_line c) && plain s)

pub plain-AllPlain : (s : List ℕ) → plain s ≡ true → AllPlain s
plain-AllPlain [] h = tt
plain-AllPlain (c ∷ s) h = (ground arith, ground arith, plain-AllPlain s (ground arith))

token-append :
    (w : List ℕ) (d : ℕ) (p : List ℕ)
    → AllPlain w
    → ends_token d ≡ true
    → token (w ++ (d ∷ p)) ≡ (w, p)
unfolding token
token-append [] d p h hd = rw hd
token-append (c ∷ w) d p h hd = rw (h.0, token-append w d p h.2 hd) refl

token_all : (w : List ℕ) → AllPlain w → token w ≡ (w, [])
unfolding token
token_all [] h = refl
token_all (c ∷ w) h = rw (h.0, token_all w h.2) refl

blank_ends : (c : ℕ) → ends_token c ≡ false → is_blank c ≡ false
unfolding ends_token
blank_ends c h = ground arith

module _ (c : ℕ) (w : List ℕ) where
  abbrev word : List ℕ
  word = c ∷ w

  skip_blanks-word : (p : List ℕ) → AllPlain word → skip_blanks (word ++ p) ≡ word ++ p
  unfolding skip_blanks
  skip_blanks-word p h = rw (blank_ends c h.0)

  skip_separators-word : (p : List ℕ) → AllPlain word → skip_separators (word ++ p) ≡ word ++ p
  unfolding skip_separators
  skip_separators-word p h = rw h.0

-- A line of one word, of a word and an operand, and of a word and two operands.
pub tokens_one : (c : ℕ) (w : List ℕ) → AllPlain (c ∷ w) → tokens (c ∷ w) ≡ (c ∷ w) ∷ []
unfolding tokens skip_blanks operands skip_separators
tokens_one c w h = rw (blank_ends c h.0, token_all (c ∷ w) h) refl

operand_last :
    (room c : ℕ) (w : List ℕ) → AllPlain (c ∷ w) → operands (suc (suc room)) (c ∷ w) ≡ (c ∷ w) ∷ []
unfolding operands skip_separators
operand_last room c w h = rw (h.0, token_all (c ∷ w) h) refl

operand_next :
    (room c d : ℕ) (w p : List ℕ)
    → AllPlain (c ∷ w)
    → ends_token d ≡ true
    → operands (suc room) ((c ∷ w) ++ (d ∷ p)) ≡ (c ∷ w) ∷ operands room p
unfolding operands skip_separators
operand_next room c d w p h hd = rw (h.0, token-append (c ∷ w) d p h hd) refl

operands_skip :
    (room d : ℕ) (p : List ℕ)
    → ends_token d ≡ true
    → operands (suc room) (d ∷ p) ≡ operands (suc room) p
unfolding operands skip_separators
operands_skip room d p hd = rw hd refl

tokens_more :
    (c d : ℕ) (w p : List ℕ)
    → AllPlain (c ∷ w)
    → ends_token d ≡ true
    → tokens ((c ∷ w) ++ (d ∷ p)) ≡ (c ∷ w) ∷ operands 3 p
unfolding tokens skip_blanks
tokens_more c d w p h hd = rw (blank_ends c h.0, token-append (c ∷ w) d p h hd) refl

module _ (c : ℕ) (w : List ℕ) (c1 : ℕ) (w1 : List ℕ) where
  pub tokens_two :
      AllPlain (c ∷ w)
      → AllPlain (c1 ∷ w1)
      → tokens ((c ∷ w) ++ (b' ' ∷ (c1 ∷ w1))) ≡ (c ∷ w) ∷ (c1 ∷ w1) ∷ []
  unfolding ends_token is_blank
  tokens_two h h1 =
      tokens_more c b' ' w (c1 ∷ w1) h refl ∙ ap (λ t. (c ∷ w) ∷ t) (operand_last 1 c1 w1 h1)

  pub tokens_three :
      (c2 : ℕ) (w2 : List ℕ)
      → AllPlain (c ∷ w)
      → AllPlain (c1 ∷ w1)
      → AllPlain (c2 ∷ w2)
      → tokens ((c ∷ w) ++ (b' ' ∷ ((c1 ∷ w1) ++ (b',' ∷ b' ' ∷ (c2 ∷ w2)))))
        ≡ (c ∷ w) ∷ (c1 ∷ w1) ∷ (c2 ∷ w2) ∷ []
  unfolding ends_token is_blank
  tokens_three c2 w2 h h1 h2 =
      let more = operand_next 2 c1 b',' w1 (b' ' ∷ (c2 ∷ w2)) h1 refl in
      let last = operands_skip 1 b' ' (c2 ∷ w2) refl ∙ operand_last 0 c2 w2 h2 in
      tokens_more c b' ' w _ h refl ∙ ap (λ t. (c ∷ w) ∷ t) (more ∙ ap (λ t. (c1 ∷ w1) ∷ t) last)

-- The first token is no longer than the line.
token_short : (s : List ℕ) → length (token s).0 ≤ length s
unfolding token
token_short [] = omega arith
token_short (c ∷ s) = ground (arith, token_short s)

skip_blanks_short : (s : List ℕ) → length (skip_blanks s) ≤ length s
unfolding skip_blanks
skip_blanks_short [] = omega arith
skip_blanks_short (c ∷ s) = ground (arith, skip_blanks_short s)

pub first_short : (line : List ℕ) → length (get_or (tokens line) 0 []) ≤ length line
unfolding tokens
first_short line = omega (arith, token_short (skip_blanks line), skip_blanks_short line)

-- A line without line ends is cut off in front of the line end behind it.
abbrev pub IsLine : List ℕ → Type 0
IsLine [] = Unit {0}
IsLine (c ∷ s) = (ends_line c ≡ false) × IsLine s

pub plain-IsLine : (w : List ℕ) → AllPlain w → IsLine w
plain-IsLine [] h = tt
plain-IsLine (c ∷ w) h = (h.1, plain-IsLine w h.2)

pub IsLine-append : (s t : List ℕ) → IsLine s → IsLine t → IsLine (s ++ t)
IsLine-append [] t hs ht = ht
IsLine-append (c ∷ s) t hs ht = (hs.0, IsLine-append s t hs.1 ht)

pub cut_line-append : (s rest : List ℕ) → IsLine s → cut_line (s ++ (10 ∷ rest)) ≡ (s, 10 ∷ rest)
unfolding cut_line ends_line
cut_line-append [] rest h = refl
cut_line-append (c ∷ s) rest h = rw (h.0, cut_line-append s rest h.1) refl

pub cut_line_length : (s : List ℕ) → length (cut_line s).0 + length (cut_line s).1 ≡ length s
unfolding cut_line
cut_line_length [] = refl
cut_line_length (c ∷ s) = ground (arith, cut_line_length s)
