-- ===== src/Strings/Length.antt =====
-- `strlen` and `strchr` of src/string.c.
use sant_os.Prelude.{
  ℕ, zero, suc, ◌+◌, ◌<◌, Mem, some, List, [], ◌∷◌, ◌==◌, if◌then◌else◌, ◌≡◌, arith, length, ◌∙◌,
  ap, u8, subst,
}
use sant_os.Strings.{strlen, strlen_from, strchr, IsString}

strlen_from_lem :
    (s : List ℕ) (fuel : ℕ) (m : Mem) (a n : ℕ)
    → IsString m (a + n) s
    → length s < fuel
    → strlen_from fuel m a n ≡ some (n + length s)
unfolding strlen_from
strlen_from_lem s zero m a n h enough = absurd (omega arith)
strlen_from_lem [] (suc fuel) m a n h enough = ground arith
strlen_from_lem (c ∷ s) (suc fuel) m a n h enough =
    let (here, nz, rest) = h in
    let next : a + n + 1 ≡ a + (n + 1) = omega arith in
    let rest' =
      strlen_from_lem s fuel m a (n + 1) (subst (λ t. IsString m t s) next rest) (omega arith) in
    ground arith

-- With one round more than the string has characters, `strlen` ends and returns their number.
pub strlen_lem :
    (s : List ℕ) (fuel : ℕ) (m : Mem) (a : ℕ)
    → IsString m a s
    → length s < fuel
    → strlen fuel m a ≡ some (length s)
unfolding strlen
strlen_lem s fuel m a h enough =
    let e : a ≡ a + 0 = omega arith in
    let z : 0 + length s ≡ length s = omega arith in
    strlen_from_lem s fuel m a 0 (subst (λ t. IsString m t s) e h) enough ∙ ap some z

-- The address of the first `c` of a string that stands at `a`, 0 if it has none.
abbrev pub first_at : ℕ → List ℕ → ℕ → ℕ
first_at a [] c = 0
first_at a (x ∷ s) c = if x == c then a else first_at (a + 1) s c

-- `strchr` ends with one round more than the string has characters and returns the address of the
-- first character that equals the low byte of `c`, `NULL` if there is none; the NUL at the end
-- of the string is not found.
pub strchr_lem :
    (s : List ℕ) (fuel : ℕ) (m : Mem) (a c : ℕ)
    → IsString m a s
    → length s < fuel
    → strchr fuel m a c ≡ some (first_at a s (u8 c))
unfolding strchr
strchr_lem s zero m a c h enough = absurd (omega arith)
strchr_lem [] (suc fuel) m a c h enough = ground arith
strchr_lem (x ∷ s) (suc fuel) m a c h enough =
    let (here, nz, rest) = h in
    let rest' = strchr_lem s fuel m (a + 1) c rest (omega arith) in ground arith
