-- ===== src/UserString.antt =====
-- `strncmp` and `strtok` of programs/lib/string.c. The delimiters are the characters of their C
-- string; a loop that runs until it meets a NUL is on fuel, and `none` is a loop that has used it up.
pub mod Tokens
mod Tests
use sant_os.Prelude.{
  ℕ, zero, suc, ◌+◌, Mem, store, Bool, true, false, Option, none, some, List, [], ◌∷◌, ◌==◌,
  if◌then◌else◌,
}
use sant_os.Prelude.Int.{ℤ, pos, diff}

unfoldable pub strncmp_from : ℕ → ℕ → Mem → ℕ → ℕ → ℤ
strncmp_from zero i m s1 s2 = pos 0
strncmp_from (suc left) i m s1 s2 =
    let rest = strncmp_from left (i + 1) m s1 s2 in
    if m (s1 + i) == m (s2 + i)
    then if m (s1 + i) == 0 then pos 0 else rest
    else diff (m (s1 + i)) (m (s2 + i))

unfoldable pub strncmp : Mem → ℕ → ℕ → ℕ → ℤ
strncmp m s1 s2 n = strncmp_from n 0 m s1 s2

-- The loop over the delimiters.
unfoldable pub is_delim : List ℕ → ℕ → Bool
is_delim [] c = false
is_delim (d ∷ delim) c = if c == d then true else is_delim delim c

unfoldable pub skip_delims : ℕ → List ℕ → Mem → ℕ → Option ℕ
skip_delims zero delim m at = none
skip_delims (suc fuel) delim m at =
    let rest = skip_delims fuel delim m (at + 1) in
    if m at == 0 then some at else if is_delim delim (m at) then rest else some at

-- The end of a token, and whether a delimiter stands there.
unfoldable pub token_end : ℕ → List ℕ → Mem → ℕ → Option (ℕ × Bool)
token_end zero delim m at = none
token_end (suc fuel) delim m at =
    let rest = token_end fuel delim m (at + 1) in
    if m at == 0 then some (at, false) else if is_delim delim (m at) then some (at, true) else rest

-- What a call leaves: the memory, the static variable, and the result.
pub record Token : Type 0 where
  pub bytes : Mem
  pub strtok_state : Option ℕ
  pub token_start : Option ℕ

unfoldable pub cut_token : Mem → ℕ → ℕ × Bool → Token
cut_token m start (end, true) = record {
  bytes = store m end 0;
  strtok_state = some (end + 1);
  token_start = some start;
}
cut_token m start (end, false) = record { bytes = m; strtok_state = none; token_start = some start }

unfoldable pub token_at : ℕ → List ℕ → Mem → ℕ → Option Token
token_at fuel delim m start =
    let end = token_end fuel delim m start in
    if m start == 0
    then some (record { bytes = m; strtok_state = none; token_start = none })
    else elim end [ none ↦ none | some e ↦ some (cut_token m start e) ]

-- `if (str != NULL) strtok_state = str;`
unfoldable pub current : Option ℕ → Option ℕ → Option ℕ
current none state = state
current (some str) state = some str

unfoldable pub strtok : ℕ → List ℕ → Option ℕ → Mem → Option ℕ → Option Token
strtok fuel delim str m state = elim (current str state) [
  | none ↦ some (record { bytes = m; strtok_state = none; token_start = none })
  | some at ↦ elim (skip_delims fuel delim m at) [
    | none ↦ none
    | some start ↦ token_at fuel delim m start
  ]
]
