-- ===== src/Fat12/Chain/Freed.antt =====
-- What the loop of `fat12_delete` does to a well-formed chain.
use sant_os.Prelude.{
  ℕ, zero, suc, ◌<◌, Mem, some, if◌then◌else◌, ◌≡◌, arith, refl, false, List, [], ◌∷◌, length,
}
use sant_os.Fat12.Table.{get_fat_entry, set_fat_entry}
use sant_os.Fat12.Table.Entries.{IsBytes}
use sant_os.Fat12.Table.Map.{get_fat_entry-set_fat_entry, set_fat_entry-IsBytes}
use sant_os.Fat12.Chain.{free_chain, has, Chain}

-- A store outside a chain leaves the chain.
Chain-frame :
    (buf : Mem) (c d : ℕ) (xs : List ℕ)
    → IsBytes buf
    → has c xs ≡ false
    → Chain buf d xs
    → Chain (set_fat_entry buf c 0) d xs
Chain-frame buf c d [] bytes out h = h
Chain-frame buf c d (x ∷ xs) bytes out (e, inside, once, rest) =
    let same : get_fat_entry (set_fat_entry buf c 0) d ≡ get_fat_entry buf d =
      ground (arith, get_fat_entry-set_fat_entry buf c d 0 bytes) in
    (
      e,
      inside,
      once,
      rw same (Chain-frame buf c (get_fat_entry buf d) xs bytes (ground arith) rest),
    )

-- With fuel for each cluster of a chain and one more, freeing the chain ends; it leaves 0 in
-- each entry of the chain and every other entry as it was.
pub free_chain_lem :
    (fuel : ℕ) (buf : Mem) (c : ℕ) (xs : List ℕ)
    → IsBytes buf
    → Chain buf c xs
    → length xs < fuel
    → (r : Mem) × (free_chain fuel buf c ≡ some r)
      × ((d : ℕ) → get_fat_entry r d ≡ (if has d xs then 0 else get_fat_entry buf d))
unfolding free_chain
free_chain_lem zero buf c xs bytes chain h = absurd (omega arith)
free_chain_lem (suc fuel) buf c [] bytes chain h = (buf, rw chain, λ d. refl)
free_chain_lem (suc fuel) buf c (x ∷ xs) bytes (e, inside, once, rest) h =
    let (r, ends, freed) =
      free_chain_lem fuel (set_fat_entry buf c 0) (get_fat_entry buf c) xs
        (set_fat_entry-IsBytes buf c 0 bytes) (Chain-frame buf c _ xs bytes once rest)
        (omega arith) in
    (r, rw inside ends, λ d. ground (arith, freed d, get_fat_entry-set_fat_entry buf c d 0 bytes))
