-- ===== src/Memory/Init.antt =====
-- `pmem_init` of src/memory.c: the state that it leaves is valid.
use sant_os.Prelude.{
  ℕ, zero, suc, ◌+◌, ◌/◌, ◌^◌, ◌<◌, ◌≤◌, Mem, store, true, false, ◌&&◌, ltb, leb, if◌then◌else◌,
  ◌≡◌, arith, refl, ap, sym, ◌∙◌, sub32,
}
use sant_os.Prelude.Bits.{zero-and}
use sant_os.Memory.{Pmem, bitmap_is_set, set_pages, run_is_free, zero_bytes, pmem_init}
use sant_os.Memory.Bitmap.{IsBytes}
use sant_os.Memory.Pages.{free_count, IsValid}
use sant_os.Memory.Alloc.{is_set_counts, free_count_counts}
use sant_os.Memory.Runs.{set_pages_count, set_pages_bits, set_pages-IsBytes, total-set_pages}

zero_bytes_lem :
    (m : Mem) (n a i : ℕ) → zero_bytes m n a i ≡ (if leb a i && ltb i (a + n) then 0 else m i)
unfolding zero_bytes store
zero_bytes_lem m zero a i = ground arith
zero_bytes_lem m (suc n) a i = ground (arith, zero_bytes_lem (store m a 0) n (a + 1) i)

abbrev cleared : Mem → ℕ → ℕ → Pmem
cleared ram start size =
    let total = size / 4096 in
    record {
      ram = zero_bytes ram ((total + 7) / 8) start;
      bitmap = start;
      total_pages = total;
      free_pages = 0;
      bitmap_size = (total + 7) / 8;
    }

module _ (ram : Mem) (start size : ℕ) (bytes : IsBytes ram) where
  abbrev c : Pmem
  c = cleared ram start size

  abbrev total : ℕ
  total = size / 4096

  abbrev bitmap_pages : ℕ
  bitmap_pages = ((total + 7) / 8 + 4095) / 4096

  cleared-IsBytes : IsBytes c.ram
  cleared-IsBytes i = ground (arith, bytes i, zero_bytes_lem ram ((total + 7) / 8) start i)

  all_free : (r : ℕ) → r < total → bitmap_is_set c r ≡ false
  unfolding bitmap_is_set
  all_free r lt =
      let z : zero_bytes ram ((total + 7) / 8) start (start + r / 8) ≡ 0 =
        ground (arith, zero_bytes_lem ram ((total + 7) / 8) start (start + r / 8)) in
      rw (z, zero-and)

  count_cleared : (n : ℕ) → n ≤ total → free_count n c ≡ n
  unfolding free_count
  count_cleared zero h = refl
  count_cleared (suc n) h = ground (arith, all_free n (omega arith), count_cleared n (omega arith))

  run_cleared : (n page : ℕ) → page + n ≤ total → run_is_free c n page ≡ true
  unfolding run_is_free
  run_cleared zero page h = refl
  run_cleared (suc n) page h =
      ground (arith, all_free page (omega arith), run_cleared n (page + 1) (omega arith))

  -- For a region of at least one page and less than 4 GB, `pmem_init` leaves a valid state in
  -- which the used pages are the ones that it counts for the bitmap, from page 0 on.
  pub init-IsValid :
      4096 ≤ size
      → size < 2 ^ 32
      → IsValid (pmem_init ram start size)
        × ((r : ℕ) → r < total → bitmap_is_set (pmem_init ram start size) r ≡ ltb r bitmap_pages)
  unfolding pmem_init
  init-IsValid one small =
      let after = set_pages c bitmap_pages 0 in
      let n = sub32 total bitmap_pages in
      let fits : 0 + bitmap_pages ≤ total = omega arith in
      let fewer =
        set_pages_count total c bitmap_pages 0 cleared-IsBytes (run_cleared bitmap_pages 0 fits)
          fits in
      let here : n ≡ free_count total (record after { free_pages = n }) =
        omega (arith, fewer, free_count_counts total after n, count_cleared total (omega arith)) in
      let same = total-set_pages c bitmap_pages 0 in
      let bits : (r : ℕ)
          → r < total
          → bitmap_is_set (record after { free_pages = n }) r ≡ ltb r bitmap_pages =
        λ r lt.
          is_set_counts after n r
          ∙ set_pages_bits c bitmap_pages 0 r cleared-IsBytes
          ∙ ground (arith, all_free r lt) in
      (
        record {
          bytes = set_pages-IsBytes c bitmap_pages 0 cleared-IsBytes;
          counted = here ∙ ap (λ k. free_count k (record after { free_pages = n })) (sym same);
          small = rw same (omega arith);
          first_used = bits 0 (omega arith) ∙ ground arith;
        },
        bits,
      )
