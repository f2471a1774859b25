-- ===== src/Memory/E820.antt =====
-- The BIOS memory map in src/memory.c (`e820_parse`, `e820_find_largest_region`), and the region
-- that `kernel_main` of kernel.c gives to the physical memory manager.
pub mod Largest
use sant_os.Prelude.{
  ℕ, zero, suc, ◌+◌, Bool, ◌||◌, Option, none, some, List, [], ◌∷◌, ◌==◌, ltb, leb, if◌then◌else◌,
  u32, u64, sub64,
}

-- `e820_entry_t`; the extended attributes are not read.
pub record Entry : Type 0 where
  pub base : ℕ
  pub length : ℕ
  pub type : ℕ

abbrev pub e820_ram : ℕ
e820_ram = 1

-- `for (i = 0; i < count; i++) e820_map.entries[i] = entries[i];`
unfoldable pub copy_entries : (ℕ → Entry) → ℕ → ℕ → List Entry
copy_entries entries zero i = []
copy_entries entries (suc left) i = entries i ∷ copy_entries entries left (i + 1)

-- `e820_parse`, with the count at 0x500 and the entries behind it; what it prints is left out.
unfoldable pub e820_parse : ℕ → (ℕ → Entry) → Option (List Entry)
unfolding copy_entries
e820_parse count entries =
    if count == 0 || ltb 32 count then none else some (copy_entries entries count 0)

pub record Region : Type 0 where
  pub start : ℕ
  pub size : ℕ

-- One round of `e820_find_largest_region`.
unfoldable pub consider : Region → Entry → Region
consider largest e =
    let region_end = u64 (e.base + e.length) in
    let region_start = if ltb e.base 0x100000 then 0x100000 else e.base in
    let usable_size = sub64 region_end region_start in
    if e.type == e820_ram
    then (if leb region_end 0x100000
        then largest
        else if ltb largest.size usable_size
        then record { start = region_start; size = usable_size }
        else largest)
    else largest

unfoldable pub largest_from : Region → List Entry → Region
unfolding consider
largest_from largest [] = largest
largest_from largest (e ∷ es) = largest_from (consider largest e) es

unfoldable pub e820_find_largest_region : List Entry → Option Region
unfolding largest_from
e820_find_largest_region entries =
    let largest = largest_from (record { start = 0; size = 0 }) entries in
    if largest.size == 0 then none else some largest

-- The arguments of `pmem_init` in `kernel_main`.
abbrev pub fallback : Region
fallback = record { start = 0x400000; size = 0x400000 }

unfoldable pub choose_region : Region → Region
choose_region r =
    let pmem_start = if ltb 0x800000 r.start then r.start else 0x800000 in
    let pmem_size = sub64 (u64 (r.start + r.size)) pmem_start in
    let capped = if ltb 0x40000000 pmem_size then 0x40000000 else pmem_size in
    record { start = u32 pmem_start; size = u32 capped }

unfoldable pub memory_region : ℕ → (ℕ → Entry) → Region
unfolding e820_parse e820_find_largest_region choose_region
memory_region count entries = elim (e820_parse count entries) [
  | none ↦ fallback
  | some es ↦ elim (e820_find_largest_region es) [ none ↦ fallback | some r ↦ choose_region r ]
]
