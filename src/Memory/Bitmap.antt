-- ===== src/Memory/Bitmap.antt =====
-- The bits of src/memory.c: a bitmap in memory is a set of pages.
use sant_os.Prelude.{
  ℕ, ◌+◌, ◌-◌, ◌*◌, ◌/◌, ◌%◌, ◌^◌, ◌<◌, Mem, store, Bool, true, false, ◌&&◌, ◌||◌, ◌==◌, ltb,
  bit_and, bit_or, nonzero, ◌≡◌, arith, refl, Bool-cases, inl, inr, not,
}
use sant_os.Prelude.Tables.{holds_below, holds_at}
use sant_os.Memory.{Pmem, bit_byte, bitmap_set, bitmap_clear, bitmap_is_set}

abbrev bit : ℕ → ℕ → Bool
bit b k = nonzero (bit_and b (2 ^ k))

abbrev same : Bool → Bool → Bool
same true b = b
same false b = not b

-- The laws of one byte, at a number that stands for the byte and two places.
abbrev or_law : ℕ → Bool
or_law x =
    let b = x / 64 in
    let k = x / 8 % 8 in
    let j = x % 8 in
    same (bit (bit_or b (2 ^ k)) j) (k == j || bit b j) && ltb (bit_or b (2 ^ k)) 256

abbrev and_law : ℕ → Bool
and_law x =
    let b = x / 64 in
    let k = x / 8 % 8 in
    let j = x % 8 in
    same (bit (bit_and b (0xFF - 2 ^ k)) j) (not (k == j) && bit b j)
    && ltb (bit_and b (0xFF - 2 ^ k)) 256

or_table : holds_below or_law 16384 ≡ true
unfolding holds_below
or_table = refl

and_table : holds_below and_law 16384 ≡ true
unfolding holds_below
and_table = refl

same-eq : (a b : Bool) → same a b ≡ true → a ≡ b
same-eq true true h = refl
same-eq true false h = cc
same-eq false true h = cc
same-eq false false h = refl

and_true : (a b : Bool) → (a && b) ≡ true → (a ≡ true) × (b ≡ true)
and_true true true h = (refl, refl)
and_true true false h = cc
and_true false b h = cc

module _ (b k j : ℕ) (hb : b < 256) (hk : k < 8) (hj : j < 8) where
  abbrev place : ℕ
  place = b * 64 + k * 8 + j

  at_place : (law : ℕ → Bool) → holds_below law 16384 ≡ true → law place ≡ true
  at_place law table = holds_at law 16384 place (omega arith) table

  fields : (place / 64 ≡ b) × (place / 8 % 8 ≡ k) × (place % 8 ≡ j)
  fields = omega arith

  bit-or : (bit (bit_or b (2 ^ k)) j ≡ (k == j || bit b j)) × (bit_or b (2 ^ k) < 256)
  bit-or =
      let (eb, ek, ej) = fields in
      let law = rw (eb, ek, ej) at (at_place or_law or_table) in
      let (first, second) = and_true _ _ law in (same-eq _ _ first, ground arith)

  bit-and :
      (bit (bit_and b (0xFF - 2 ^ k)) j ≡ (not (k == j) && bit b j))
      × (bit_and b (0xFF - 2 ^ k) < 256)
  bit-and =
      let (eb, ek, ej) = fields in
      let law = rw (eb, ek, ej) at (at_place and_law and_table) in
      let (first, second) = and_true _ _ law in (same-eq _ _ first, ground arith)

-- What the hardware gives.
abbrev pub IsBytes : Mem → Type 0
IsBytes m = (i : ℕ) → m i < 256

module _ (p : Pmem) (q r : ℕ) (bytes : IsBytes p.ram) where
  -- Setting the bit of a page makes that page used, and leaves every other page as it was.
  pub is_set-set : bitmap_is_set (bitmap_set p q) r ≡ (q == r || bitmap_is_set p r)
  unfolding bitmap_set bitmap_is_set store
  is_set-set =
      let law =
        bit-or (p.ram (bit_byte p q)) (q % 8) (r % 8) (bytes _) (omega arith) (omega arith) in
      elim (Bool-cases (bit_byte p r == bit_byte p q)) [
        | inl hit ↦
            let e : bit_byte p r ≡ bit_byte p q = ground arith in
            let k : (q % 8 == r % 8) ≡ (q == r) = ground arith in
            let self : (bit_byte p q == bit_byte p q) ≡ true = ground arith in
            rw (e, self, law.0, k)
        | inr missed ↦ let ne : (q == r) ≡ false = ground arith in rw (missed, ne)
      ]

  -- Clearing the bit of a page makes that page free, and leaves every other page as it was.
  pub is_set-clear : bitmap_is_set (bitmap_clear p q) r ≡ (not (q == r) && bitmap_is_set p r)
  unfolding bitmap_clear bitmap_is_set store
  is_set-clear =
      let law =
        bit-and (p.ram (bit_byte p q)) (q % 8) (r % 8) (bytes _) (omega arith) (omega arith) in
      elim (Bool-cases (bit_byte p r == bit_byte p q)) [
        | inl hit ↦
            let e : bit_byte p r ≡ bit_byte p q = ground arith in
            let k : (q % 8 == r % 8) ≡ (q == r) = ground arith in
            let self : (bit_byte p q == bit_byte p q) ≡ true = ground arith in
            rw (e, self, law.0, k)
        | inr missed ↦ let ne : (q == r) ≡ false = ground arith in rw (missed, ne)
      ]

module _ (p : Pmem) (q : ℕ) (bytes : IsBytes p.ram) where
  pub set-IsBytes : IsBytes (bitmap_set p q).ram
  unfolding bitmap_set store
  set-IsBytes i =
      let law = bit-or (p.ram (bit_byte p q)) (q % 8) 0 (bytes _) (omega arith) (omega arith) in
      ground (arith, bytes i)

  pub clear-IsBytes : IsBytes (bitmap_clear p q).ram
  unfolding bitmap_clear store
  clear-IsBytes i =
      let law = bit-and (p.ram (bit_byte p q)) (q % 8) 0 (bytes _) (omega arith) (omega arith) in
      ground (arith, bytes i)
