-- ===== src/Fat12/Table/Map.antt =====
-- The packed table of src/fat12.c is a map from clusters to 12-bit values.
use sant_os.Prelude.{
  ℕ, ◌+◌, ◌*◌, ◌/◌, ◌%◌, ◌<◌, Mem, store, ◌==◌, if◌then◌else◌, ◌≡◌, ◌⊎◌, inl, inr, arith,
}
use sant_os.Fat12.Table.{get_fat_entry, set_fat_entry}
use sant_os.Fat12.Table.Entries.{
  IsBytes, get-even, get-odd, set-even, set-odd, written_even, written_odd,
}

parity : (c : ℕ) → ((k : ℕ) × (c ≡ 2 * k)) ⊎ ((k : ℕ) × (c ≡ 2 * k + 1))
parity c = elim (zero_or_one (c % 2) (omega arith)) [
  | inl e ↦ inl (c / 2, omega arith)
  | inr e ↦ inr (c / 2, omega arith)
]
  where
    zero_or_one : (r : ℕ) → r < 2 → (r ≡ 0) ⊎ (r ≡ 1)
    zero_or_one r h = omega arith

module _ (buf : Mem) (v : ℕ) (bytes : IsBytes buf) where
  abbrev Law : ℕ → ℕ → Type 0
  Law c d =
      get_fat_entry (set_fat_entry buf c v) d ≡ (if c == d then v % 4096 else get_fat_entry buf d)

  even_even : (k j : ℕ) → Law (2 * k) (2 * j)
  unfolding store
  even_even k j =
      rw (set-even buf k v bytes)
        (ground (arith, get-even (written_even buf k v) j, get-even buf j, bytes (3 * k + 1)))

  even_odd : (k j : ℕ) → Law (2 * k) (2 * j + 1)
  unfolding store
  even_odd k j =
      rw (set-even buf k v bytes)
        (ground (arith, get-odd (written_even buf k v) j, get-odd buf j, bytes (3 * k + 1)))

  odd_even : (k j : ℕ) → Law (2 * k + 1) (2 * j)
  unfolding store
  odd_even k j =
      rw (set-odd buf k v bytes)
        (ground (arith, get-even (written_odd buf k v) j, get-even buf j, bytes (3 * k + 1)))

  odd_odd : (k j : ℕ) → Law (2 * k + 1) (2 * j + 1)
  unfolding store
  odd_odd k j =
      rw (set-odd buf k v bytes)
        (ground (arith, get-odd (written_odd buf k v) j, get-odd buf j, bytes (3 * k + 1)))

-- In a table of bytes, `set_fat_entry` stores the low 12 bits of the value at its cluster and
-- leaves the entry of every other cluster as it was, the one that shares a byte included.
pub get_fat_entry-set_fat_entry :
    (buf : Mem) (c d v : ℕ)
    → IsBytes buf
    → get_fat_entry (set_fat_entry buf c v) d ≡ (if c == d then v % 4096 else get_fat_entry buf d)
get_fat_entry-set_fat_entry buf c d v bytes = elim (parity c) [
  | inl (k, e) ↦ elim (parity d) [
    | inl (j, f) ↦ rw (e, f) (even_even buf v bytes k j)
    | inr (j, f) ↦ rw (e, f) (even_odd buf v bytes k j)
  ]
  | inr (k, e) ↦ elim (parity d) [
    | inl (j, f) ↦ rw (e, f) (odd_even buf v bytes k j)
    | inr (j, f) ↦ rw (e, f) (odd_odd buf v bytes k j)
  ]
]

pub set_fat_entry-IsBytes : (buf : Mem) (c v : ℕ) → IsBytes buf → IsBytes (set_fat_entry buf c v)
unfolding store
set_fat_entry-IsBytes buf c v bytes i = elim (parity c) [
  | inl (k, e) ↦ rw (e, set-even buf k v bytes) (ground (arith, bytes i, bytes (3 * k + 1)))
  | inr (k, e) ↦ rw (e, set-odd buf k v bytes) (ground (arith, bytes i, bytes (3 * k + 1)))
]

pub get_fat_entry-lt : (buf : Mem) (c : ℕ) → IsBytes buf → get_fat_entry buf c < 4096
get_fat_entry-lt buf c bytes = elim (parity c) [
  | inl (k, e) ↦ rw (e, get-even buf k) (omega arith)
  | inr (k, e) ↦ rw (e, get-odd buf k) (omega (arith, bytes (3 * k + 1), bytes (3 * k + 2)))
]
