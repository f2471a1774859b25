-- ===== src/Strings/Blocks.antt =====
-- Blocks of bytes in src/string.c: `memmove`, `memcpy`, `memset` and `memcmp`.
use sant_os.Prelude.{
  ℕ, zero, suc, ◌+◌, ◌-◌, ◌%◌, ◌<◌, ◌≤◌, Mem, store, ◌&&◌, ltb, leb, ◌==◌, if◌then◌else◌, u8, ◌≡◌,
  arith, refl, ◌⊎◌, inl, inr, ◌↔◌, Bool-cases, subst,
}
use sant_os.Prelude.Int.{pos, diff, diff-zero}
use sant_os.Strings.{copy_up, memcpy, copy_down, memmove, set_up, memset, compare_up, memcmp}

-- All `n` bytes at once.
abbrev pub moved : ℕ → ℕ → ℕ → Mem → ℕ → ℕ
moved dest src n m k = if leb dest k && ltb k (dest + n) then m (src + (k - dest)) else m k

pub copy_up_lem :
    (d s left i : ℕ) (m : Mem) (k : ℕ)
    → (d ≤ s) ⊎ (s + i + left ≤ d)
    → copy_up d s left i m k
      ≡ (if leb (d + i) k && ltb k (d + i + left) then m (s + (k - d)) else m k)
unfolding copy_up store
copy_up_lem d s zero i m k h = ground arith
copy_up_lem d s (suc left) i m k h =
    let rest = copy_up_lem d s left (i + 1) (store m (d + i) (m (s + i))) k (ground arith) in
    ground (arith, rest)

copy_down_lem : (d s n : ℕ) (m : Mem) (k : ℕ) → s ≤ d → copy_down d s n m k ≡ moved d s n m k
unfolding copy_down store
copy_down_lem d s zero m k h = ground arith
copy_down_lem d s (suc i) m k h =
    ground (arith, copy_down_lem d s i (store m (d + i) (m (s + i))) k h)

-- `memmove` moves a block as if all its bytes were read before any is written, also where source
-- and destination overlap, and changes no byte outside the destination.
pub memmove_lem : (dest src n : ℕ) (m : Mem) (k : ℕ) → memmove dest src n m k ≡ moved dest src n m k
unfolding memmove
memmove_lem dest src n m k = elim (Bool-cases (ltb dest src)) [
  | inl lower ↦ rw lower (ground (arith, copy_up_lem dest src n 0 m k (ground arith)))
  | inr higher ↦ rw higher (copy_down_lem dest src n m k (ground arith))
]

-- `memcpy` does the same where the destination does not begin inside the source.
pub memcpy_lem :
    (dest src n : ℕ) (m : Mem) (k : ℕ)
    → (dest ≤ src) ⊎ (src + n ≤ dest)
    → memcpy dest src n m k ≡ moved dest src n m k
unfolding memcpy
memcpy_lem dest src n m k apart = ground (arith, copy_up_lem dest src n 0 m k (ground arith))

pub set_up_lem :
    (p value left i : ℕ) (m : Mem) (k : ℕ)
    → set_up p value left i m k ≡ (if leb (p + i) k && ltb k (p + i + left) then u8 value else m k)
unfolding set_up store
set_up_lem p value zero i m k = ground arith
set_up_lem p value (suc left) i m k =
    ground (arith, set_up_lem p value left (i + 1) (store m (p + i) (u8 value)) k)

-- `memset` writes the low byte of the value into the block and into no other byte.
pub memset_lem :
    (p value n : ℕ) (m : Mem) (k : ℕ)
    → memset p value n m k ≡ (if leb p k && ltb k (p + n) then value % 256 else m k)
unfolding memset
memset_lem p value n m k = ground (arith, set_up_lem p value n 0 m k)

-- Two blocks are equal.
abbrev pub SameBlock : ℕ → ℕ → ℕ → Mem → Type 0
SameBlock p q n m = (j : ℕ) → j < n → m (p + j) ≡ m (q + j)

compare_up_same :
    (p q left i : ℕ) (m : Mem)
    → ((j : ℕ) → i ≤ j → j < i + left → m (p + j) ≡ m (q + j))
    → compare_up p q left i m ≡ pos 0
unfolding compare_up
compare_up_same p q zero i m h = refl
compare_up_same p q (suc left) i m h =
    let here = h i (omega arith) (omega arith) in
    let rest = compare_up_same p q left (i + 1) m (λ j lo hi. h j (omega arith) (omega arith)) in
    ground (arith, rest)

compare_up_zero :
    (p q left i : ℕ) (m : Mem)
    → compare_up p q left i m ≡ pos 0
    → (j : ℕ) → i ≤ j
    → j < i + left
    → m (p + j) ≡ m (q + j)
unfolding compare_up
compare_up_zero p q zero i m h j lo hi = absurd (omega arith)
compare_up_zero p q (suc left) i m h j lo hi = elim (Bool-cases (m (p + i) == m (q + i))) [
  | inl same ↦ elim (Bool-cases (i == j)) [
    | inl here ↦
        let e : i ≡ j = ground arith in
        let s : m (p + i) ≡ m (q + i) = ground arith in subst (λ (t : ℕ). m (p + t) ≡ m (q + t)) e s
    | inr later ↦ compare_up_zero p q left (i + 1) m (rw same at h) j (ground arith) (omega arith)
  ]
  | inr differ ↦
      let h' : diff (m (p + i)) (m (q + i)) ≡ pos 0 = rw differ at h in
      let same = diff-zero (m (p + i)) (m (q + i)) h' in absurd (ground arith)
]

-- `memcmp` returns 0 exactly when the two blocks have the same bytes.
pub memcmp_iff : (p q n : ℕ) (m : Mem) → (memcmp p q n m ≡ pos 0) ↔ SameBlock p q n m
unfolding memcmp
memcmp_iff p q n m = (
  λ h j lt. compare_up_zero p q n 0 m h j (omega arith) (omega arith),
  λ h. compare_up_same p q n 0 m (λ j lo hi. h j (omega arith)),
)
