-- ===== src/Strings/Compare.antt =====
-- `strcmp` of src/string.c.
use sant_os.Prelude.{
  ℕ, zero, suc, ◌+◌, ◌<◌, Mem, Bool, true, false, ◌&&◌, some, List, [], ◌∷◌, ◌==◌, ltb,
  if◌then◌else◌, ◌≡◌, arith, length, Bool-cases, inl, inr,
}
use sant_os.Prelude.Int.{ℤ, pos, negsuc, diff, below_zero, below_zero-diff}
use sant_os.Strings.{strcmp, IsString}

-- The order of strings by their bytes, a prefix first.
abbrev pub before : List ℕ → List ℕ → Bool
before s [] = false
before [] (d ∷ t) = true
before (c ∷ s) (d ∷ t) = if c == d then before s t else ltb c d

abbrev pub same : List ℕ → List ℕ → Bool
same [] [] = true
same [] (d ∷ t) = false
same (c ∷ s) [] = false
same (c ∷ s) (d ∷ t) = c == d && same s t

abbrev pub is_zero : ℤ → Bool
is_zero (pos n) = n == 0
is_zero (negsuc n) = false

is_zero-diff : (a b : ℕ) → is_zero (diff a b) ≡ (a == b)
is_zero-diff a b = ground arith

-- Of two strings, `strcmp` ends with one round more than the first has characters. The result is
-- 0 exactly when the strings are equal, and below 0 exactly when the first comes before the
-- second in the order of their bytes.
pub strcmp_lem :
    (s t : List ℕ) (fuel : ℕ) (m : Mem) (a b : ℕ)
    → IsString m a s
    → IsString m b t
    → length s < fuel
    → (r : ℤ) × (strcmp fuel m a b ≡ some r) × (is_zero r ≡ same s t) × (below_zero r ≡ before s t)
unfolding strcmp
strcmp_lem s t zero m a b hs ht enough = absurd (omega arith)
strcmp_lem [] [] (suc fuel) m a b hs ht enough = (
  diff (m a) (m b),
  ground arith,
  ground (arith, is_zero-diff (m a) (m b)),
  ground (arith, below_zero-diff (m a) (m b)),
)
strcmp_lem [] (d ∷ t) (suc fuel) m a b hs ht enough =
    let (hd, nz, rest) = ht in
    (
      diff (m a) (m b),
      ground arith,
      ground (arith, is_zero-diff (m a) (m b)),
      ground (arith, below_zero-diff (m a) (m b)),
    )
strcmp_lem (c ∷ s) [] (suc fuel) m a b hs ht enough =
    let (hc, nz, rest) = hs in
    (
      diff (m a) (m b),
      ground arith,
      ground (arith, is_zero-diff (m a) (m b)),
      ground (arith, below_zero-diff (m a) (m b)),
    )
strcmp_lem (c ∷ s) (d ∷ t) (suc fuel) m a b hs ht enough =
    let (hc, nz, rest_s) = hs in
    let (hd, nzd, rest_t) = ht in
    elim (Bool-cases (c == d)) [
      | inl eq ↦
          let (r, runs, z, n) = strcmp_lem s t fuel m (a + 1) (b + 1) rest_s rest_t (omega arith) in
          (r, ground arith, rw eq z, rw eq n)
      | inr ne ↦ (
        diff (m a) (m b),
        ground arith,
        ground (arith, is_zero-diff (m a) (m b)),
        ground (arith, below_zero-diff (m a) (m b)),
      )
    ]
