-- ===== src/Strings/Copy.antt =====
-- `strcpy` and `strcat` of src/string.c.
use sant_os.Prelude.{
  ℕ, zero, suc, ◌+◌, ◌<◌, ◌≤◌, Mem, store, true, false, some, List, [], ◌∷◌, ◌++◌, ◌==◌, ◌≡◌, ◌≢◌,
  ◌⊎◌, arith, length, ◌∙◌,
}
use sant_os.Strings.{strcpy, strcat, IsString}

-- An address outside the `n` bytes from `a` on.
abbrev pub Outside : ℕ → ℕ → ℕ → Type 0
Outside a n k = (k < a) ⊎ (a + n ≤ k)

-- The `n` bytes from `a` on and from `b` on have none in common.
abbrev pub Apart : ℕ → ℕ → ℕ → ℕ → Type 0
Apart a n b k = (a + n ≤ b) ⊎ (b + k ≤ a)

pub store_other : (m : Mem) (k v a : ℕ) → a ≢ k → store m k v a ≡ m a
unfolding store
store_other m k v a h = ground arith

pub store_here : (m : Mem) (k v : ℕ) → store m k v k ≡ v
unfolding store
store_here m k v = ground arith

-- A string stands as long as none of its bytes and not its NUL changes.
pub IsString-agree :
    (s : List ℕ) (m m' : Mem) (a : ℕ)
    → ((k : ℕ) → a ≤ k → k < a + length s + 1 → m' k ≡ m k)
    → IsString m a s
    → IsString m' a s
IsString-agree [] m m' a same h = same a (omega arith) (omega arith) ∙ h
IsString-agree (c ∷ s) m m' a same h =
    let (hc, nz, rest) = h in
    (
      same a (omega arith) (omega arith) ∙ hc,
      nz,
      IsString-agree s m m' (a + 1) (λ k lo hi. same k (omega arith) (omega arith)) rest,
    )

-- Of a string whose bytes are apart from the destination's, `strcpy` ends with one round more
-- than it has characters: the destination then holds the string with its NUL, and no byte
-- outside it has changed.
pub strcpy_lem :
    (s : List ℕ) (fuel : ℕ) (m : Mem) (dest src : ℕ)
    → IsString m src s
    → length s < fuel
    → Apart dest (length s + 1) src (length s + 1)
    → (m' : Mem) × (strcpy fuel m dest src ≡ some m')
      × IsString m' dest s
      × ((k : ℕ) → Outside dest (length s + 1) k → m' k ≡ m k)
unfolding strcpy
strcpy_lem s zero m dest src h enough apart = absurd (omega arith)
strcpy_lem [] (suc fuel) m dest src h enough apart = (
  store m dest (m src),
  ground arith,
  store_here m dest (m src) ∙ h,
  λ k out. store_other m dest (m src) k (ground arith),
)
strcpy_lem (c ∷ s) (suc fuel) m dest src h enough apart =
    let (hc, nz, rest) = h in
    let m1 = store m dest (m src) in
    let kept : IsString m1 (src + 1) s =
      IsString-agree s m m1 (src + 1) (λ k lo hi. store_other m dest (m src) k (ground arith))
        rest in
    let (m', runs, copied, frame) =
      strcpy_lem s fuel m1 (dest + 1) (src + 1) kept (omega arith) (ground arith) in
    let more : (m src == 0) ≡ false = ground arith in
    (
      m',
      rw more runs,
      (frame dest (ground arith) ∙ store_here m dest (m src) ∙ hc, nz, copied),
      λ k out. frame k (ground arith) ∙ store_other m dest (m src) k (ground arith),
    )

-- Of two strings where the second is apart from the room that the result takes, `strcat` ends
-- with one round more than each has characters, leaves the strings put together at the
-- destination, and changes no byte outside them.
pub strcat_lem :
    (s t : List ℕ) (copy_fuel fuel : ℕ) (m : Mem) (dest src : ℕ)
    → IsString m dest s
    → IsString m src t
    → length s < fuel
    → length t < copy_fuel
    → Apart dest (length s + length t + 1) src (length t + 1)
    → (m' : Mem) × (strcat copy_fuel fuel m dest src ≡ some m')
      × IsString m' dest (s ++ t)
      × ((k : ℕ) → Outside dest (length s + length t + 1) k → m' k ≡ m k)
unfolding strcat
strcat_lem s t copy_fuel zero m dest src hs ht enough enough' apart = absurd (omega arith)
strcat_lem [] t copy_fuel (suc fuel) m dest src hs ht enough enough' apart =
    let (m', runs, copied, frame) = strcpy_lem t copy_fuel m dest src ht enough' (ground arith) in
    let stop : (m dest == 0) ≡ true = ground arith in
    (m', rw stop runs, copied, λ k out. frame k (ground arith))
strcat_lem (c ∷ s) t copy_fuel (suc fuel) m dest src hs ht enough enough' apart =
    let (hc, nz, rest) = hs in
    let (m', runs, copied, frame) =
      strcat_lem s t copy_fuel fuel m (dest + 1) src rest ht (omega arith) enough' (ground arith) in
    let more : (m dest == 0) ≡ false = ground arith in
    (
      m',
      rw more runs,
      (frame dest (ground arith) ∙ hc, nz, copied),
      λ k out. frame k (ground arith),
    )
