-- ===== src/Fat12/Chain/Length.antt =====
-- The loop of `fat12_delete` ends on every table, with fuel for each entry that is in use.
use sant_os.Prelude.{
  ℕ, zero, suc, ◌+◌, ◌<◌, ◌≤◌, Mem, some, ◌==◌, if◌then◌else◌, ◌≡◌, ◌≢◌, inl, inr, arith, refl,
  Bool-cases,
}
use sant_os.Fat12.Table.{get_fat_entry, set_fat_entry}
use sant_os.Fat12.Table.Entries.{IsBytes}
use sant_os.Fat12.Table.Map.{get_fat_entry-set_fat_entry, set_fat_entry-IsBytes}
use sant_os.Fat12.Chain.{in_chain, free_chain}

-- The entries below `n` that are not 0.
pub used : ℕ → Mem → ℕ
used zero buf = 0
used (suc n) buf = (if get_fat_entry buf n == 0 then 0 else 1) + used n buf

pub used-le : (n : ℕ) (buf : Mem) → used n buf ≤ n
unfolding used
used-le zero buf = omega arith
used-le (suc n) buf = ground (arith, used-le n buf)

module _ (buf : Mem) (c : ℕ) (bytes : IsBytes buf) where
  used_above : (n : ℕ) → n ≤ c → used n (set_fat_entry buf c 0) ≡ used n buf
  unfolding used
  used_above zero h = refl
  used_above (suc n) h = ground (arith, used_above n, get_fat_entry-set_fat_entry buf c n 0 bytes)

  used_below :
      (n : ℕ) → c < n → get_fat_entry buf c ≢ 0 → suc (used n (set_fat_entry buf c 0)) ≡ used n buf
  unfolding used
  used_below zero h ne = absurd (omega arith)
  used_below (suc n) h ne =
      ground (arith, used_above n, used_below n, get_fat_entry-set_fat_entry buf c n 0 bytes)

-- A free cluster is followed by 0, which no chain goes through.
free_chain_at_free :
    (fuel : ℕ) (buf : Mem) (c : ℕ)
    → get_fat_entry buf c ≡ 0
    → (r : Mem) × (free_chain (suc (suc fuel)) buf c ≡ some r)
unfolding free_chain
free_chain_at_free fuel buf c e = elim (Bool-cases (in_chain c)) [
  | inl inside ↦ (set_fat_entry buf c 0, rw (inside, e))
  | inr outside ↦ (buf, rw outside)
]

-- Of any table of bytes, also one with a cycle: the loop that frees a chain ends within two
-- rounds more than there are entries in use below 0xFF8.
pub free_chain_total :
    (fuel : ℕ) (buf : Mem) (c : ℕ)
    → IsBytes buf
    → used 0xFF8 buf + 1 < fuel
    → (r : Mem) × (free_chain fuel buf c ≡ some r)
unfolding free_chain
free_chain_total zero buf c bytes h = absurd (omega arith)
free_chain_total (suc zero) buf c bytes h = absurd (omega arith)
free_chain_total (suc (suc fuel)) buf c bytes h = elim (Bool-cases (get_fat_entry buf c == 0)) [
  | inl free ↦ free_chain_at_free fuel buf c (ground arith)
  | inr in_use ↦ elim (Bool-cases (in_chain c)) [
    | inl inside ↦
        let fewer = used_below buf c bytes 0xFF8 (ground arith) (ground arith) in
        rw inside (
          free_chain_total (suc fuel) (set_fat_entry buf c 0) (get_fat_entry buf c)
            (set_fat_entry-IsBytes buf c 0 bytes) (omega (arith, fewer)))
    | inr outside ↦ (buf, rw outside)
  ]
]

-- More fuel changes nothing.
free_chain_mono :
    (fuel more : ℕ) (buf : Mem) (c : ℕ) {r : Mem}
    → fuel ≤ more
    → free_chain fuel buf c ≡ some r
    → free_chain more buf c ≡ some r
unfolding free_chain
free_chain_mono zero more buf c h e = cc
free_chain_mono (suc fuel) zero buf c h e = absurd (omega arith)
free_chain_mono (suc fuel) (suc more) buf c h e = elim (Bool-cases (in_chain c)) [
  | inl inside ↦
      let e' = rw inside at e in
      rw inside
        (free_chain_mono fuel more (set_fat_entry buf c 0) (get_fat_entry buf c) (omega arith) e')
  | inr outside ↦ let e' = rw outside at e in rw outside e'
]

-- 4096 rounds are enough for every table of bytes, and then any number of rounds that ends gives
-- the same result.
pub free_chain_enough :
    (more : ℕ) (buf : Mem) (c : ℕ) {r : Mem}
    → IsBytes buf
    → free_chain more buf c ≡ some r
    → free_chain 4096 buf c ≡ some r
free_chain_enough more buf c {r} bytes e =
    let (r', ends) = free_chain_total 4096 buf c bytes (omega (arith, used-le 0xFF8 buf)) in
    let up = free_chain_mono 4096 (4096 + more) buf c (omega arith) ends in
    let up' = free_chain_mono more (4096 + more) buf c (omega arith) e in ground arith
