-- ===== src/Fat12/Table/Entries.antt =====
-- The packed table of src/fat12.c is a map from clusters to 12-bit values.
use sant_os.Prelude.{ℕ, ◌+◌, ◌*◌, ◌/◌, ◌%◌, ◌^◌, ◌<◌, bit_and, bit_or, Mem, store, u16, ◌≡◌, arith}
use sant_os.Prelude.Bits.{and_ones, and_shifted_mask, or_fields, or_comm}
use sant_os.Fat12.Table.{get_fat_entry, set_fat_entry}

-- What the hardware gives: every cell of memory is a byte.
abbrev pub IsBytes : Mem → Type 0
IsBytes m = (i : ℕ) → m i < 256

-- The 16 bits that a store writes back, the neighbour's four among them.
even_word :
    (e v : ℕ)
    → e < 2 ^ 16
    → bit_or (bit_and e 0xF000) (bit_and v 0x0FFF) ≡ e / 4096 * 4096 + v % 4096
even_word e v h = ground (
  arith,
  and_shifted_mask 12 e 15,
  and_ones 4 (e / 4096),
  and_ones 12 v,
  or_fields 12 (e / 4096) (v % 4096),
)

odd_word : (e v : ℕ) → u16 (bit_or (bit_and e 0x000F) (v * 2 ^ 4)) ≡ e % 16 + v % 4096 * 16
odd_word e v = ground (arith, and_ones 4 e, or_fields 4 v (e % 16), or_comm (e % 16) (v * 16))

-- The table after a store to an even and to an odd cluster, byte by byte.
abbrev pub written_even : Mem → ℕ → ℕ → Mem
written_even buf k v =
    store (store buf (3 * k) (v % 256)) (3 * k + 1) (buf (3 * k + 1) / 16 * 16 + v / 256 % 16)

abbrev pub written_odd : Mem → ℕ → ℕ → Mem
written_odd buf k v =
    store (store buf (3 * k + 1) (buf (3 * k + 1) % 16 + v % 16 * 16)) (3 * k + 2) (v / 16 % 256)

module _ (buf : Mem) (k : ℕ) where
  -- The two bytes of an entry, by the parity of its cluster.
  pub get-even : get_fat_entry buf (2 * k) ≡ (buf (3 * k) + 256 * buf (3 * k + 1)) % 4096
  unfolding get_fat_entry
  get-even =
      let o : 2 * k + 2 * k / 2 ≡ 3 * k = omega arith in
      rw o (ground (arith, and_ones 1 (2 * k), and_ones 12 (buf (3 * k) + 256 * buf (3 * k + 1))))

  pub get-odd : get_fat_entry buf (2 * k + 1) ≡ (buf (3 * k + 1) + 256 * buf (3 * k + 2)) / 16
  unfolding get_fat_entry
  get-odd =
      let o : 2 * k + 1 + (2 * k + 1) / 2 ≡ 3 * k + 1 = omega arith in
      let p : 3 * k + 1 + 1 ≡ 3 * k + 2 = omega arith in
      rw (o, p) (ground (arith, and_ones 1 (2 * k + 1)))

  pub set-even : (v : ℕ) → IsBytes buf → set_fat_entry buf (2 * k) v ≡ written_even buf k v
  unfolding set_fat_entry
  set-even v bytes =
      let o : 2 * k + 2 * k / 2 ≡ 3 * k = omega arith in
      let e = buf (3 * k) + 256 * buf (3 * k + 1) in
      let small : e < 2 ^ 16 = omega (arith, bytes (3 * k), bytes (3 * k + 1)) in
      let lo : (e / 4096 * 4096 + v % 4096) % 256 ≡ v % 256 = omega arith in
      let hi : (e / 4096 * 4096 + v % 4096) / 256 % 256 ≡ buf (3 * k + 1) / 16 * 16 + v / 256 % 16 =
        omega (arith, bytes (3 * k), bytes (3 * k + 1)) in
      let even : bit_and (2 * k) 1 ≡ 0 = omega (arith, and_ones 1 (2 * k)) in
      rw (even, o, even_word e v small, lo, hi)

  pub set-odd : (v : ℕ) → IsBytes buf → set_fat_entry buf (2 * k + 1) v ≡ written_odd buf k v
  unfolding set_fat_entry
  set-odd v bytes =
      let o : 2 * k + 1 + (2 * k + 1) / 2 ≡ 3 * k + 1 = omega arith in
      let p : 3 * k + 1 + 1 ≡ 3 * k + 2 = omega arith in
      let e = buf (3 * k + 1) + 256 * buf (3 * k + 2) in
      let lo : (e % 16 + v % 4096 * 16) % 256 ≡ buf (3 * k + 1) % 16 + v % 16 * 16 = omega arith in
      let hi : (e % 16 + v % 4096 * 16) / 256 % 256 ≡ v / 16 % 256 = omega arith in
      let odd : bit_and (2 * k + 1) 1 ≡ 1 = omega (arith, and_ones 1 (2 * k + 1)) in
      rw (odd, o, p, odd_word e v, lo, hi)
