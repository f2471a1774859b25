-- ===== src/Memory/Tests.antt =====
-- Tests of the model of src/memory.c, and the theorems at concrete inputs.
use sant_os.Prelude.{
  List, ◌∷◌, [], ◌≤◌, ◌+◌, ℕ, ◌<◌, store, true, none, some, ◌≡◌, ◌≢◌, refl, arith, if◌then◌else◌,
  ◌==◌, ltb, ◌&&◌,
}
use sant_os.Memory.{
  Pmem, bitmap_set, bitmap_clear, bitmap_is_set, find_free_page, find_free_from, run_is_free,
  pmem_init, pmem_alloc_page, pmem_alloc_pages, pmem_free_page,
}
use sant_os.Memory.E820.{
  Entry, Region, consider, largest_from, e820_find_largest_region, choose_region,
}
use sant_os.Memory.E820.Largest.{
  NoWrap, FromOne, AtMost, find_largest-some, find_largest-none, choose_region_within,
  choose_region_small,
}
use sant_os.Memory.Bitmap.{IsBytes, is_set-set, is_set-clear}
use sant_os.Memory.Pages.{free_count, IsValid, Found, find_free_page-Found}
use sant_os.Memory.Alloc.{Takes, alloc-Takes, alloc-IsValid, free-IsValid, free-alloc}
use sant_os.Memory.Runs.{alloc_pages_diverges, TakesRun, alloc_pages-TakesRun}
use sant_os.Memory.Init.{init-IsValid}
use sant_os.Memory.Reach.{started, next, allocates, frees, Reach-IsValid}

-- Eight pages of which pages 0 and 3 are in use.
abbrev eight : Pmem
eight = record {
  ram = λ a. if a == 0 then 9 else 0;
  bitmap = 0;
  total_pages = 8;
  free_pages = 6;
  bitmap_size = 1;
}

eight-IsBytes : IsBytes eight.ram
eight-IsBytes i = ground arith

eight-IsValid : IsValid eight
unfolding free_count bitmap_is_set
eight-IsValid = record {
  bytes = eight-IsBytes;
  counted = refl;
  small = omega arith;
  first_used = refl;
}

first_page : ((pmem_alloc_page eight).1 ≡ 4096) × (bitmap_is_set (pmem_alloc_page eight).0 1 ≡ true)
unfolding pmem_alloc_page find_free_page find_free_from bitmap_is_set bitmap_set store
first_page = (refl, refl)

is_set-set_case : bitmap_is_set (bitmap_set eight 5) 5 ≡ true
is_set-set_case = is_set-set eight 5 5 eight-IsBytes

is_set-clear_case : bitmap_is_set (bitmap_clear eight 3) 0 ≡ (true && bitmap_is_set eight 0)
is_set-clear_case = is_set-clear eight 3 0 eight-IsBytes

find_free_page-Found_case : Found eight 0 8 (find_free_page eight 0)
find_free_page-Found_case = find_free_page-Found eight

alloc-Takes_example :
    (q : ℕ) × Takes eight q (pmem_alloc_page eight) × ((pmem_alloc_page eight).1 ≢ 0) × (q ≢ 0)
alloc-Takes_example = alloc-Takes eight eight-IsValid (omega arith)

alloc-IsValid_case : IsValid (pmem_alloc_page eight).0
alloc-IsValid_case = alloc-IsValid eight eight-IsValid

free-IsValid_case : IsValid (pmem_free_page eight 12288)
free-IsValid_case = free-IsValid eight eight-IsValid 12288 (omega arith)

Reach-IsValid_example :
    IsValid (pmem_free_page (pmem_alloc_page (pmem_init (λ a. 0) 8388608 65536)).0 8192)
Reach-IsValid_example =
    Reach-IsValid (λ a. 0) 8388608 65536
      (pmem_free_page (pmem_alloc_page (pmem_init (λ a. 0) 8388608 65536)).0 8192)
      (λ i. omega arith) (omega arith) (omega arith)
      (next (next started (allocates (pmem_init (λ a. 0) 8388608 65536)))
        (frees (pmem_alloc_page (pmem_init (λ a. 0) 8388608 65536)).0 8192 (omega arith)))

free-alloc_case :
    let (p', addr) = pmem_alloc_page eight in
    ((r : ℕ) → bitmap_is_set (pmem_free_page p' addr) r ≡ bitmap_is_set eight r)
    × ((pmem_free_page p' addr).free_pages ≡ 6)
free-alloc_case = free-alloc eight eight-IsValid (omega arith)

-- Pages 1 and 2 are free and page 3 is not: three pages in a row stand at 4 only.
alloc_pages_diverges_example : pmem_alloc_pages 1000 eight 3 ≡ none
unfolding find_free_page find_free_from bitmap_is_set run_is_free
alloc_pages_diverges_example =
    alloc_pages_diverges 1000 eight 3 (omega arith) (omega arith) (omega arith) refl

alloc_pages-TakesRun_example :
    (p' : Pmem) × (addr : ℕ) × (pmem_alloc_pages 1 eight 2 ≡ some (p', addr))
    × TakesRun eight 2 p' addr
unfolding find_free_page find_free_from bitmap_is_set run_is_free
alloc_pages-TakesRun_example =
    alloc_pages-TakesRun eight eight-IsValid 2 0 (omega arith) (omega arith) refl

-- Sixteen pages of memory at 8 MB.
init-IsValid_case :
    IsValid (pmem_init (λ a. 0) 8388608 65536)
    × ((r : ℕ) → r < 16 → bitmap_is_set (pmem_init (λ a. 0) 8388608 65536) r ≡ ltb r 1)
init-IsValid_case =
    init-IsValid (λ a. 0) 8388608 65536 (λ i. omega arith) (omega arith) (omega arith)

-- Low memory, 127 MB from 1 MB on, and a reserved region.
abbrev map3 : List Entry
map3 =
    record { base = 0; length = 0x9FC00; type = 1 }
    ∷ record { base = 0x100000; length = 0x7EE0000; type = 1 }
    ∷ record { base = 0xFFFC0000; length = 0x40000; type = 2 }
    ∷ []

abbrev high : Region
high = record { start = 0x100000; size = 0x7EE0000 }

map3-NoWrap : NoWrap map3
map3-NoWrap = (omega arith, (omega arith, (omega arith, tt)))

map3_largest : e820_find_largest_region map3 ≡ some high
unfolding e820_find_largest_region largest_from consider
map3_largest = refl

find_largest-some_case : FromOne high map3 × (high.size ≢ 0) × AtMost high.size map3
find_largest-some_case = find_largest-some map3 map3-NoWrap map3_largest

find_largest-none_case : AtMost 0 (record { base = 0; length = 0x9FC00; type = 1 } ∷ [])
unfolding e820_find_largest_region largest_from consider
find_largest-none_case =
    find_largest-none (record { base = 0; length = 0x9FC00; type = 1 } ∷ []) (omega arith, tt) refl

choose_region_within_example :
    let c = choose_region high in
    (high.start ≤ c.start)
    × (0x800000 ≤ c.start)
    × (c.start + c.size ≤ high.start + high.size)
    × (c.size ≤ 0x40000000)
choose_region_within_example = choose_region_within high (omega arith) (omega arith)

-- A machine with 6 MB.
choose_region_small_case :
    choose_region (record { start = 0x100000; size = 0x500000 })
    ≡ record { start = 0x800000; size = 0x40000000 }
choose_region_small_case =
    choose_region_small (record { start = 0x100000; size = 0x500000 }) (omega arith)
