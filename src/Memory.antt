-- ===== src/Memory.antt =====
-- The physical memory manager, src/memory.c and include/memory.h: the bitmap and the pages.
pub mod E820
pub mod Bitmap
pub mod Pages
pub mod Alloc
pub mod Runs
pub mod Init
pub mod Reach
mod Tests
use sant_os.Prelude.{
  ℕ, zero, suc, ◌+◌, ◌-◌, ◌*◌, ◌/◌, ◌%◌, ◌^◌, Mem, store, Bool, true, false, not, Option, none,
  some, ◌==◌, ltb, leb, if◌then◌else◌, bit_and, bit_or, nonzero, u32, sub32,
}

-- `physical_memory_t` and the memory that `bitmap` points into.
pub record Pmem : Type 0 where
  pub ram : Mem
  pub bitmap : ℕ
  pub total_pages : ℕ
  pub free_pages : ℕ
  pub bitmap_size : ℕ

-- Where the bit of a page stands.
abbrev pub bit_byte : Pmem → ℕ → ℕ
bit_byte p page = p.bitmap + page / 8

unfoldable pub bitmap_set : Pmem → ℕ → Pmem
bitmap_set p page =
    let i = bit_byte p page in record p { ram = store p.ram i (bit_or (p.ram i) (2 ^ (page % 8))) }

-- `~(1 << bit_idx)` on the eight bits that the byte keeps.
unfoldable pub bitmap_clear : Pmem → ℕ → Pmem
bitmap_clear p page =
    let i = bit_byte p page in
    record p { ram = store p.ram i (bit_and (p.ram i) (0xFF - 2 ^ (page % 8))) }

unfoldable pub bitmap_is_set : Pmem → ℕ → Bool
bitmap_is_set p page = nonzero (bit_and (p.ram (bit_byte p page)) (2 ^ (page % 8)))

abbrev pub not_found : ℕ
not_found = 0xFFFFFFFF

-- The loop of `find_free_page` with the pages left up to `total_pages`.
unfoldable pub find_free_from : Pmem → ℕ → ℕ → ℕ
find_free_from p zero page = not_found
find_free_from p (suc left) page =
    let rest = find_free_from p left (page + 1) in if bitmap_is_set p page then rest else page

unfoldable pub find_free_page : Pmem → ℕ → ℕ
unfolding find_free_from
find_free_page p start = find_free_from p (p.total_pages - start) start

-- `for (i = 0; i < n; i++) bitmap_set(start + i);` from `page` on.
unfoldable pub set_pages : Pmem → ℕ → ℕ → Pmem
unfolding bitmap_set
set_pages p zero page = p
set_pages p (suc left) page = set_pages (bitmap_set p page) left (page + 1)

-- `for (i = 0; i < n; i++) ptr[i] = 0;`
unfoldable pub zero_bytes : Mem → ℕ → ℕ → Mem
zero_bytes m zero a = m
zero_bytes m (suc left) a = zero_bytes (store m a 0) left (a + 1)

-- `pmem_init`; the figures that it prints are left out.
unfoldable pub pmem_init : Mem → ℕ → ℕ → Pmem
unfolding set_pages zero_bytes
pmem_init ram memory_start memory_size =
    let total = memory_size / 4096 in
    let size = (total + 7) / 8 in
    let bitmap_pages = (size + 4095) / 4096 in
    let cleared : Pmem = record {
      ram = zero_bytes ram size memory_start;
      bitmap = memory_start;
      total_pages = total;
      free_pages = 0;
      bitmap_size = size;
    } in
    record (set_pages cleared bitmap_pages 0) { free_pages = sub32 total bitmap_pages }

-- The address that a function returns, 0 on failure, and the state that it leaves.
unfoldable pub pmem_alloc_page : Pmem → Pmem × ℕ
unfolding find_free_page bitmap_set
pmem_alloc_page p =
    let page = find_free_page p 0 in
    if p.free_pages == 0
    then (p, 0)
    else if page == not_found
    then (p, 0)
    else (record (bitmap_set p page) { free_pages = p.free_pages - 1 }, u32 (page * 4096))

-- Is no bit of the run set?
unfoldable pub run_is_free : Pmem → ℕ → ℕ → Bool
unfolding bitmap_is_set
run_is_free p zero page = true
run_is_free p (suc left) page =
    let rest = run_is_free p left (page + 1) in if bitmap_is_set p page then false else rest

-- `pmem_alloc_pages`; `none` is a run that uses up its fuel in the call of itself.
unfoldable pub pmem_alloc_pages : ℕ → Pmem → ℕ → Option (Pmem × ℕ)
unfolding find_free_page run_is_free set_pages
pmem_alloc_pages zero p count = none
pmem_alloc_pages (suc fuel) p count =
    let again = pmem_alloc_pages fuel p count in
    let start = find_free_page p 0 in
    if count == 0
    then some (p, 0)
    else if ltb p.free_pages count
    then some (p, 0)
    else if start == not_found
    then some (p, 0)
    else if run_is_free p count start
    then some
        (record (set_pages p count start) { free_pages = p.free_pages - count }, u32 (start * 4096))
    else again

unfoldable pub pmem_free_page : Pmem → ℕ → Pmem
unfolding bitmap_is_set bitmap_clear
pmem_free_page p addr =
    let page = addr / 4096 in
    if addr == 0
    then p
    else if leb p.total_pages page
    then p
    else if bitmap_is_set p page
    then record (bitmap_clear p page) { free_pages = u32 (p.free_pages + 1) }
    else p

unfoldable pub pmem_free_pages : Pmem → ℕ → ℕ → Pmem
unfolding pmem_free_page
pmem_free_pages p addr zero = p
pmem_free_pages p addr (suc left) = pmem_free_pages (pmem_free_page p addr) (u32 (addr + 4096)) left
