-- ===== src/Memory/Runs.antt =====
-- Runs of pages in src/memory.c: `pmem_alloc_pages` takes the run at the first free page, or calls
-- itself with nothing changed.
use sant_os.Prelude.{
  ℕ, zero, suc, ◌+◌, ◌-◌, ◌*◌, ◌<◌, ◌≤◌, Bool, true, false, ◌&&◌, ◌||◌, ◌==◌, ltb, leb, ◌≡◌, ◌≢◌,
  arith, refl, Bool-cases, inl, inr, none, some, ap, sym, ◌∙◌,
}
use sant_os.Memory.{
  Pmem, bitmap_set, bitmap_is_set, not_found, find_free_page, set_pages, run_is_free,
  pmem_alloc_pages,
}
use sant_os.Memory.Bitmap.{IsBytes, is_set-set, set-IsBytes}
use sant_os.Memory.Pages.{free_count, IsValid, count_set, find_free_page-Found}
use sant_os.Memory.Alloc.{total-set, is_set_counts, free_count_counts, least_free}

-- For a count that is not 0 and at most the number of free pages, when some page is free and the
-- first one does not begin a run of `count` free pages, `pmem_alloc_pages` does not return, however
-- long it runs: it calls itself in the very same state.
pub alloc_pages_diverges :
    (fuel : ℕ) (p : Pmem) (count : ℕ)
    → count ≢ 0
    → count ≤ p.free_pages
    → find_free_page p 0 ≢ not_found
    → run_is_free p count (find_free_page p 0) ≡ false
    → pmem_alloc_pages fuel p count ≡ none
unfolding pmem_alloc_pages
alloc_pages_diverges zero p count nz enough found broken = refl
alloc_pages_diverges (suc fuel) p count nz enough found broken =
    ground (arith, alloc_pages_diverges fuel p count nz enough found broken)

-- No page below `s` is free, so the free pages are among those from `s` on.
count_above :
    (n s : ℕ) (p : Pmem) → ((r : ℕ) → r < s → bitmap_is_set p r ≡ true) → free_count n p ≤ n - s
unfolding free_count
count_above zero s p h = omega arith
count_above (suc n) s p h = elim (Bool-cases (ltb n s)) [
  | inl below ↦ let used = h n (ground arith) in ground (arith, count_above n s p h)
  | inr above ↦ ground (arith, count_above n s p h)
]

abbrev pub in_run : ℕ → ℕ → ℕ → Bool
in_run start n r = leb start r && ltb r (start + n)

module _ (p : Pmem) (bytes : IsBytes p.ram) where
  run-set : (n q page : ℕ) → q < page → run_is_free (bitmap_set p q) n page ≡ run_is_free p n page
  unfolding run_is_free
  run-set zero q page lt = refl
  run-set (suc n) q page lt = ground (arith, is_set-set p q page bytes, run-set n q (page + 1))

pub set_pages-IsBytes : (p : Pmem) (n s : ℕ) → IsBytes p.ram → IsBytes (set_pages p n s).ram
unfolding set_pages
set_pages-IsBytes p zero s b = b
set_pages-IsBytes p (suc n) s b = set_pages-IsBytes (bitmap_set p s) n (s + 1) (set-IsBytes p s b)

pub total-set_pages : (p : Pmem) (n s : ℕ) → (set_pages p n s).total_pages ≡ p.total_pages
unfolding set_pages
total-set_pages p zero s = refl
total-set_pages p (suc n) s = total-set_pages (bitmap_set p s) n (s + 1) ∙ total-set p s

pub set_pages_bits :
    (p : Pmem) (n s r : ℕ)
    → IsBytes p.ram
    → bitmap_is_set (set_pages p n s) r ≡ (in_run s n r || bitmap_is_set p r)
unfolding set_pages
set_pages_bits p zero s r b = ground arith
set_pages_bits p (suc n) s r b =
    let rest = set_pages_bits (bitmap_set p s) n (s + 1) r (set-IsBytes p s b) in
    ground (arith, rest, is_set-set p s r b)

pub set_pages_count :
    (t : ℕ) (p : Pmem) (n s : ℕ)
    → IsBytes p.ram
    → run_is_free p n s ≡ true
    → s + n ≤ t
    → free_count t (set_pages p n s) + n ≡ free_count t p
unfolding set_pages run_is_free
set_pages_count t p zero s b free fits = omega arith
set_pages_count t p (suc n) s b free fits = elim (Bool-cases (bitmap_is_set p s)) [
  | inl used ↦ cc (rw used at free)
  | inr unused ↦
      let tail : run_is_free p n (s + 1) ≡ true = rw unused at free in
      let still = run-set p b n s (s + 1) (omega arith) ∙ tail in
      let rest =
        set_pages_count t (bitmap_set p s) n (s + 1) (set-IsBytes p s b) still (omega arith) in
      omega (arith, rest, count_set p s b t (omega arith) unused)
]

run_free_at :
    (p : Pmem) (n s r : ℕ)
    → run_is_free p n s ≡ true
    → in_run s n r ≡ true
    → bitmap_is_set p r ≡ false
unfolding run_is_free
run_free_at p zero s r free inside = absurd (omega (arith, run_bounds s zero r inside))
  where
    run_bounds : (s n r : ℕ) → in_run s n r ≡ true → (s ≤ r) × (r < s + n)
    run_bounds s n r h = (ground arith, ground arith)
run_free_at p (suc n) s r free inside = elim (Bool-cases (bitmap_is_set p s)) [
  | inl used ↦ cc (rw used at free)
  | inr unused ↦
      let tail : run_is_free p n (s + 1) ≡ true = rw unused at free in
      elim (Bool-cases (s == r)) [
        | inl here ↦ let e : s ≡ r = ground arith in ap (bitmap_is_set p) (sym e) ∙ unused
        | inr later ↦ run_free_at p n (s + 1) r tail (ground arith)
      ]
]

-- What an allocation of a run that succeeds does. All pages before the run were in use.
pub record TakesRun (p : Pmem) (count : ℕ) (p' : Pmem) (addr : ℕ) : Type 0 where
  pub start : ℕ
  pub address : addr ≡ start * 4096
  pub least : (r : ℕ) → r < start → bitmap_is_set p r ≡ true
  pub in_range : start + count ≤ p.total_pages
  pub were_free : (r : ℕ) → in_run start count r ≡ true → bitmap_is_set p r ≡ false
  pub bits : (r : ℕ) → bitmap_is_set p' r ≡ (in_run start count r || bitmap_is_set p r)
  pub valid : IsValid p'

module _ (p : Pmem) (v : IsValid p) (count : ℕ) where
  taken : ℕ → Pmem
  taken s = record (set_pages p count s) { free_pages = p.free_pages - count }

  taken-IsValid :
      (s : ℕ) → run_is_free p count s ≡ true → s + count ≤ p.total_pages → IsValid (taken s)
  unfolding taken
  taken-IsValid s free fits =
      let t = p.total_pages in
      let n = p.free_pages - count in
      let after = set_pages p count s in
      let kept = free_count_counts t after n in
      let fewer = set_pages_count t p count s v.bytes free fits in
      let here : n ≡ free_count t (record after { free_pages = n }) =
        omega (arith, kept, fewer, v.counted) in
      let total = total-set_pages p count s in
      record {
        bytes = set_pages-IsBytes p count s v.bytes;
        counted = here ∙ ap (λ k. free_count k (record after { free_pages = n })) (sym total);
        small = rw total (v.small);
        first_used =
            is_set_counts after n 0
            ∙ set_pages_bits p count s 0 v.bytes
            ∙ ground (arith, v.first_used);
      }

  -- In a valid state with `count` free pages, where the first free page begins a run of `count`
  -- free pages, `pmem_alloc_pages` returns at once with the address of that run: every page
  -- before it was in use and none of it was, it ends within the managed pages, exactly its pages
  -- become used, and the invariant is kept.
  pub alloc_pages-TakesRun :
      (fuel : ℕ)
      → count ≢ 0
      → count ≤ p.free_pages
      → run_is_free p count (find_free_page p 0) ≡ true
      → (p' : Pmem) × (addr : ℕ) × (pmem_alloc_pages (suc fuel) p count ≡ some (p', addr))
        × TakesRun p count p' addr
  unfolding pmem_alloc_pages taken
  alloc_pages-TakesRun fuel nz enough free =
      let s = find_free_page p 0 in
      let (lt, unused, before) = least_free p v (find_free_page-Found p) (omega arith) in
      let above = count_above p.total_pages s p before in
      let small = v.small in
      let fits : s + count ≤ p.total_pages = omega (arith, above, v.counted) in
      (
        taken s,
        s * 4096,
        ground arith,
        record {
          start = s;
          address = refl;
          least = λ r lt. before r lt;
          in_range = fits;
          were_free = λ r inside. run_free_at p count s r free inside;
          bits = λ r.
              is_set_counts (set_pages p count s) (p.free_pages - count) r
              ∙ set_pages_bits p count s r v.bytes;
          valid = taken-IsValid s free fits;
        },
      )
