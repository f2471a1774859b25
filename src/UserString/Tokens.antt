-- ===== src/UserString/Tokens.antt =====
-- `strtok` of programs/lib/string.c on a string.
use sant_os.Prelude.{
  ℕ, zero, suc, ◌+◌, ◌<◌, ◌≤◌, Mem, store, Bool, true, false, Option, none, some, List, [], ◌∷◌,
  ◌==◌, if◌then◌else◌, ◌≡◌, ◌≢◌, refl, ◌∙◌, arith, length, Bool-cases, inl, inr,
}
use sant_os.Strings.{IsString}
use sant_os.Strings.Copy.{store_here, store_other, IsString-agree}
use sant_os.UserString.{
  is_delim, skip_delims, token_end, Token, cut_token, token_at, current, strtok,
}

-- A string behind its first delimiters.
abbrev pub behind_delims : List ℕ → List ℕ → List ℕ
behind_delims delim [] = []
behind_delims delim (c ∷ s) = if is_delim delim c then behind_delims delim s else c ∷ s

-- The characters before the first delimiter, and the string behind it if there is one.
abbrev pub first_word : List ℕ → List ℕ → List ℕ × Option (List ℕ)
first_word delim [] = ([], none)
first_word delim (c ∷ s) =
    let rest = first_word delim s in if is_delim delim c then ([], some s) else (c ∷ rest.0, rest.1)

abbrev has_rest : Option (List ℕ) → Bool
has_rest none = false
has_rest (some r) = true

-- What stands in memory where a token has been found.
abbrev Ends : Mem → ℕ → ℕ → List ℕ × Option (List ℕ) → Type 0
Ends m start end (word, none) = IsString m start word
Ends m start end (word, some rest) =
    IsString (store m end 0) start word × IsString (store m end 0) (end + 1) rest

skip_delims_lem :
    (s : List ℕ) (fuel : ℕ) (delim : List ℕ) (m : Mem) (at : ℕ)
    → IsString m at s
    → length s < fuel
    → (start : ℕ) × (skip_delims fuel delim m at ≡ some start)
      × (at ≤ start)
      × (length (behind_delims delim s) ≤ length s)
      × IsString m start (behind_delims delim s)
unfolding skip_delims
skip_delims_lem s zero delim m at h enough = absurd (omega arith)
skip_delims_lem [] (suc fuel) delim m at h enough =
    let end : (m at == 0) ≡ true = ground (arith, h) in
    (at, rw (end, skip_delims) refl, omega arith, omega arith, h)
skip_delims_lem (c ∷ s) (suc fuel) delim m at h enough =
    let (here, nz, later) = h in
    let more : (m at == 0) ≡ false = ground (arith, here, nz) in
    elim (Bool-cases (is_delim delim c)) [
      | inl delimiter ↦
          let (start, runs, le, short, held) =
            skip_delims_lem s fuel delim m (at + 1) later (omega (arith, enough)) in
          (
            start,
            rw (more, here, delimiter, skip_delims) runs,
            omega (arith, le),
            rw delimiter (omega (arith, short)),
            rw delimiter held,
          )
      | inr other ↦ (
        at,
        rw (more, here, other, skip_delims) refl,
        omega arith,
        rw other (omega arith),
        rw other h,
      )
    ]

cons_Ends :
    (m : Mem) (start end c : ℕ) (word : List ℕ) (rest : Option (List ℕ))
    → m start ≡ c
    → c ≢ 0
    → start + 1 ≤ end
    → Ends m (start + 1) end (word, rest)
    → Ends m start end (c ∷ word, rest)
cons_Ends m start end c word none here nz le h = (here, nz, h)
cons_Ends m start end c word (some rest) here nz le (word_held, rest_held) =
    ((store_other m end 0 start (omega (arith, le)) ∙ here, nz, word_held), rest_held)

token_end_lem :
    (s : List ℕ) (fuel : ℕ) (delim : List ℕ) (m : Mem) (start : ℕ)
    → IsString m start s
    → length s < fuel
    → (end : ℕ) × (token_end fuel delim m start ≡ some (end, has_rest (first_word delim s).1))
      × (start ≤ end)
      × Ends m start end (first_word delim s)
unfolding token_end
token_end_lem s zero delim m start h enough = absurd (omega arith)
token_end_lem [] (suc fuel) delim m start h enough =
    let end : (m start == 0) ≡ true = ground (arith, h) in
    (start, rw (end, token_end) refl, omega arith, h)
token_end_lem (c ∷ s) (suc fuel) delim m start h enough =
    let (here, nz, later) = h in
    let more : (m start == 0) ≡ false = ground (arith, here, nz) in
    elim (Bool-cases (is_delim delim c)) [
      | inl delimiter ↦
          let kept : IsString (store m start 0) (start + 1) s =
            IsString-agree s m (store m start 0) (start + 1)
              (λ k lo hi. store_other m start 0 k (omega (arith, lo))) later in
          (
            start,
            rw (more, here, delimiter, token_end) refl,
            omega arith,
            rw delimiter (store_here m start 0, kept),
          )
      | inr other ↦
          let (end, runs, le, held) =
            token_end_lem s fuel delim m (start + 1) later (omega (arith, enough)) in
          (
            end,
            rw (more, here, other, token_end) runs,
            omega (arith, le),
            rw other (
                cons_Ends m start end c (first_word delim s).0 (first_word delim s).1 here nz le
                  held),
          )
    ]

-- What a call of `strtok` on a string comes to, told by the string behind its first delimiters: no
-- token if that is empty. Else the token stands in memory as a string of its own, and the static
-- variable has the string behind the delimiter, `NULL` if there is none.
abbrev Rest : Token → Option (List ℕ) → Type 0
Rest t none = t.strtok_state ≡ none
Rest t (some rest) = (next : ℕ) × (t.strtok_state ≡ some next) × IsString t.bytes next rest

abbrev pub Gives : Mem → List ℕ → Token → List ℕ → Type 0
Gives m delim t [] = (t.token_start ≡ none) × (t.strtok_state ≡ none) × (t.bytes ≡ m)
Gives m delim t (c ∷ s) =
    (start : ℕ) × (t.token_start ≡ some start)
    × IsString t.bytes start (first_word delim (c ∷ s)).0
    × Rest t (first_word delim (c ∷ s)).1

cut_token-Ends :
    (m : Mem) (start end : ℕ) (word : List ℕ) (rest : Option (List ℕ))
    → Ends m start end (word, rest)
    → ((cut_token m start (end, has_rest rest)).token_start ≡ some start)
      × IsString (cut_token m start (end, has_rest rest)).bytes start word
      × Rest (cut_token m start (end, has_rest rest)) rest
unfolding cut_token
cut_token-Ends m start end word none h = (refl, h, refl)
cut_token-Ends m start end word (some rest) (word_held, rest_held) =
    (refl, word_held, (end + 1, refl, rest_held))

token_at-Gives :
    (s : List ℕ) (fuel : ℕ) (delim : List ℕ) (m : Mem) (start : ℕ)
    → IsString m start s
    → length s < fuel
    → (t : Token) × (token_at fuel delim m start ≡ some t) × Gives m delim t s
unfolding token_at
token_at-Gives [] fuel delim m start h enough =
    let end : (m start == 0) ≡ true = ground (arith, h) in
    (
      record { bytes = m; strtok_state = none; token_start = none },
      rw (end, token_at) refl,
      (refl, refl, refl),
    )
token_at-Gives (c ∷ s) fuel delim m start h enough =
    let (here, nz, later) = h in
    let more : (m start == 0) ≡ false = ground (arith, here, nz) in
    let (end, runs, le, held) = token_end_lem (c ∷ s) fuel delim m start h enough in
    let word = first_word delim (c ∷ s) in
    let (token, stands, rest) = cut_token-Ends m start end word.0 word.1 held in
    (
      cut_token m start (end, has_rest word.1),
      rw (more, runs, token_at) refl,
      (start, token, stands, rest),
    )

-- `strtok` on a string, the argument or, where that is NULL, what the static variable has: with one
-- round more than the string has characters the call returns. It gives the first word, without the
-- delimiters before it, as a string of its own, and leaves the static variable at the string behind
-- the delimiter that follows, or at NULL if none does. A string with no word gives NULL.
pub strtok-Gives :
    (s : List ℕ) (fuel : ℕ) (delim : List ℕ) (str : Option ℕ) (m : Mem) (state : Option ℕ) (at : ℕ)
    → current str state ≡ some at
    → IsString m at s
    → length s < fuel
    → (t : Token) × (strtok fuel delim str m state ≡ some t)
      × Gives m delim t (behind_delims delim s)
unfolding strtok
strtok-Gives s fuel delim str m state at which h enough =
    let (start, runs, le, short, held) = skip_delims_lem s fuel delim m at h enough in
    let (t, cut, gives) =
      token_at-Gives (behind_delims delim s) fuel delim m start held
        (omega (arith, enough, short)) in
    (t, rw (which, runs, strtok) cut, gives)
