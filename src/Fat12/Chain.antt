-- ===== src/Fat12/Chain.antt =====
-- Chains of clusters in src/fat12.c: the loop of `fat12_delete` that frees one.
pub mod Length
pub mod Freed
use sant_os.Prelude.{
  ℕ, zero, suc, Mem, Bool, true, false, ◌&&◌, Option, none, some, List, [], ◌∷◌, ltb, leb, ◌==◌,
  if◌then◌else◌, ◌≡◌, ◌||◌,
}
use sant_os.Fat12.Table.{get_fat_entry, set_fat_entry}

-- `cluster >= 2 && cluster < 0xFF8`, the test of every loop over a chain.
abbrev pub in_chain : ℕ → Bool
in_chain cluster = leb 2 cluster && ltb cluster 0xFF8

-- `none` is a run that uses up its fuel.
unfoldable pub free_chain : ℕ → Mem → ℕ → Option Mem
free_chain zero buf cluster = none
free_chain (suc fuel) buf cluster =
    let next = get_fat_entry buf cluster in
    let rest = free_chain fuel (set_fat_entry buf cluster 0) next in
    if in_chain cluster then rest else some buf

abbrev pub has : ℕ → List ℕ → Bool
has c [] = false
has c (x ∷ xs) = x == c || has c xs

-- The chain that starts at `c` runs through `xs`, each once, and ends at an end mark.
abbrev pub Chain : Mem → ℕ → List ℕ → Type 0
Chain buf c [] = in_chain c ≡ false
Chain buf c (x ∷ xs) =
    (x ≡ c) × (in_chain c ≡ true) × (has c xs ≡ false) × Chain buf (get_fat_entry buf c) xs
