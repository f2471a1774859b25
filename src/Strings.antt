-- ===== src/Strings.antt =====
-- Memory blocks and C strings, src/string.c. Addresses do not wrap round; a loop that runs until
-- it meets a NUL is on fuel, and `none` is a loop that has used it up.
pub mod Blocks
pub mod Length
pub mod Compare
pub mod Copy
mod Tests
use sant_os.Prelude.{
  ℕ, zero, suc, ◌+◌, ◌-◌, Mem, store, Bool, Option, none, some, ltb, ◌==◌, if◌then◌else◌, u8, ◌≡◌,
  ◌≢◌, List, [], ◌∷◌, not, ◌&&◌,
}
use sant_os.Prelude.Int.{ℤ, pos, diff}

-- `for (i...) d[i] = s[i];` for the `left` bytes from `i` on.
unfoldable pub copy_up : ℕ → ℕ → ℕ → ℕ → Mem → Mem
copy_up d s zero i m = m
copy_up d s (suc left) i m = copy_up d s left (i + 1) (store m (d + i) (m (s + i)))

unfoldable pub memcpy : ℕ → ℕ → ℕ → Mem → Mem
memcpy dest src n m = copy_up dest src n 0 m

-- `for (i = n; i > 0; i--) d[i - 1] = s[i - 1];`
unfoldable pub copy_down : ℕ → ℕ → ℕ → Mem → Mem
copy_down d s zero m = m
copy_down d s (suc i) m = copy_down d s i (store m (d + i) (m (s + i)))

unfoldable pub memmove : ℕ → ℕ → ℕ → Mem → Mem
memmove dest src n m = if ltb dest src then copy_up dest src n 0 m else copy_down dest src n m

unfoldable pub set_up : ℕ → ℕ → ℕ → ℕ → Mem → Mem
set_up p value zero i m = m
set_up p value (suc left) i m = set_up p value left (i + 1) (store m (p + i) (u8 value))

unfoldable pub memset : ℕ → ℕ → ℕ → Mem → Mem
memset p value n m = set_up p value n 0 m

unfoldable pub compare_up : ℕ → ℕ → ℕ → ℕ → Mem → ℤ
compare_up p q zero i m = pos 0
compare_up p q (suc left) i m =
    let rest = compare_up p q left (i + 1) m in
    if m (p + i) == m (q + i) then rest else diff (m (p + i)) (m (q + i))

unfoldable pub memcmp : ℕ → ℕ → ℕ → Mem → ℤ
memcmp p q n m = compare_up p q n 0 m

unfoldable pub strlen_from : ℕ → Mem → ℕ → ℕ → Option ℕ
strlen_from zero m str len = none
strlen_from (suc fuel) m str len =
    let rest = strlen_from fuel m str (len + 1) in if m (str + len) == 0 then some len else rest

unfoldable pub strlen : ℕ → Mem → ℕ → Option ℕ
strlen fuel m str = strlen_from fuel m str 0

unfoldable pub strcmp : ℕ → Mem → ℕ → ℕ → Option ℤ
strcmp zero m str1 str2 = none
strcmp (suc fuel) m str1 str2 =
    let rest = strcmp fuel m (str1 + 1) (str2 + 1) in
    if not (m str1 == 0) && (m str1 == m str2) then rest else some (diff (m str1) (m str2))

-- `while ((*dest++ = *src++));`: the memory that it leaves.
unfoldable pub strcpy : ℕ → Mem → ℕ → ℕ → Option Mem
strcpy zero m dest src = none
strcpy (suc fuel) m dest src =
    let m' = store m dest (m src) in
    let rest = strcpy fuel m' (dest + 1) (src + 1) in if m src == 0 then some m' else rest

-- `while (*dest) dest++;`, and then the loop of `strcpy`.
unfoldable pub strcat : ℕ → ℕ → Mem → ℕ → ℕ → Option Mem
strcat copy_fuel zero m dest src = none
strcat copy_fuel (suc fuel) m dest src =
    let rest = strcat copy_fuel fuel m (dest + 1) src in
    if m dest == 0 then strcpy copy_fuel m dest src else rest

-- The address of the character, 0 for `NULL`.
unfoldable pub strchr : ℕ → Mem → ℕ → ℕ → Option ℕ
strchr zero m str c = none
strchr (suc fuel) m str c =
    let rest = strchr fuel m (str + 1) c in
    if m str == 0 then some 0 else if m str == u8 c then some str else rest

-- The characters of a string stand at an address, with a NUL behind them.
abbrev pub IsString : Mem → ℕ → List ℕ → Type 0
IsString m a [] = m a ≡ 0
IsString m a (c ∷ s) = (m a ≡ c) × (c ≢ 0) × IsString m (a + 1) s
