-- ===== src/Memory/Pages.antt =====
-- Single pages in src/memory.c: `find_free_page`, `pmem_alloc_page` and `pmem_free_page` against
-- the set of used pages and its count.
use sant_os.Prelude.{
  ℕ, zero, suc, ◌+◌, ◌-◌, ◌^◌, ◌<◌, ◌≤◌, true, false, ◌==◌, if◌then◌else◌, ◌≡◌, arith, refl,
  Bool-cases, inl, inr, ap, sym, ◌∙◌,
}
use sant_os.Memory.{
  Pmem, bitmap_set, bitmap_clear, bitmap_is_set, not_found, find_free_from, find_free_page,
}
use sant_os.Memory.Bitmap.{IsBytes, is_set-set, is_set-clear}

-- The pages below `n` that are free.
unfoldable pub free_count : ℕ → Pmem → ℕ
free_count zero p = 0
free_count (suc n) p = (if bitmap_is_set p n then 0 else 1) + free_count n p

pub free_count_full :
    (n : ℕ) (p : Pmem) → ((q : ℕ) → q < n → bitmap_is_set p q ≡ true) → free_count n p ≡ 0
unfolding free_count
free_count_full zero p h = refl
free_count_full (suc n) p h =
    let last = h n (omega arith) in ground (arith, free_count_full n p (λ q lt. h q (omega arith)))

-- The manager's invariant. 2 ^ 20 pages are the 4 GB that a 32-bit size can name.
pub record IsValid (p : Pmem) : Type 0 where
  pub bytes : IsBytes p.ram
  pub counted : p.free_pages ≡ free_count p.total_pages p
  pub small : p.total_pages ≤ 2 ^ 20
  pub first_used : bitmap_is_set p 0 ≡ true

module _ (p : Pmem) (q : ℕ) (bytes : IsBytes p.ram) where
  count_set_above : (n : ℕ) → n ≤ q → free_count n (bitmap_set p q) ≡ free_count n p
  unfolding free_count
  count_set_above zero h = refl
  count_set_above (suc n) h = ground (arith, count_set_above n, is_set-set p q n bytes)

  pub count_set :
      (n : ℕ)
      → q < n
      → bitmap_is_set p q ≡ false
      → free_count n (bitmap_set p q) + 1 ≡ free_count n p
  unfolding free_count
  count_set zero h free = absurd (omega arith)
  count_set (suc n) h free = ground (arith, count_set_above n, count_set n, is_set-set p q n bytes)

  count_clear_above : (n : ℕ) → n ≤ q → free_count n (bitmap_clear p q) ≡ free_count n p
  unfolding free_count
  count_clear_above zero h = refl
  count_clear_above (suc n) h = ground (arith, count_clear_above n, is_set-clear p q n bytes)

  pub count_clear :
      (n : ℕ)
      → q < n
      → bitmap_is_set p q ≡ true
      → free_count n (bitmap_clear p q) ≡ free_count n p + 1
  unfolding free_count
  count_clear zero h used = absurd (omega arith)
  count_clear (suc n) h used =
      ground (arith, count_clear_above n, count_clear n, is_set-clear p q n bytes)

-- What the search from `page` on, over `left` pages, returns.
pub data Found (p : Pmem) (lo hi : ℕ) : ℕ → Type 0 where
  first_free :
      (q : ℕ)
      → lo ≤ q
      → q < hi
      → bitmap_is_set p q ≡ false
      → ((r : ℕ) → lo ≤ r → r < q → bitmap_is_set p r ≡ true)
      → Found p lo hi q
  all_used : ((r : ℕ) → lo ≤ r → r < hi → bitmap_is_set p r ≡ true) → Found p lo hi not_found

pass_used :
    (p : Pmem) (lo hi : ℕ)
    → bitmap_is_set p lo ≡ true
    → ((r : ℕ) → lo + 1 ≤ r → r < hi → bitmap_is_set p r ≡ true)
    → (r : ℕ) → lo ≤ r
    → r < hi
    → bitmap_is_set p r ≡ true
pass_used p lo hi used rest r a b = elim (Bool-cases (lo == r)) [
  | inl here ↦ let e : lo ≡ r = ground arith in ap (bitmap_is_set p) (sym e) ∙ used
  | inr later ↦ rest r (ground arith) b
]

Found-pass :
    {p : Pmem} {lo hi r : ℕ} → bitmap_is_set p lo ≡ true → Found p (lo + 1) hi r → Found p lo hi r
Found-pass used (first_free q a b free before) =
    first_free q (omega arith) b free (pass_used _ _ q used before)
Found-pass used (all_used rest) = all_used (pass_used _ _ _ used rest)

find_free_from-Found :
    (p : Pmem) (left lo hi : ℕ) → lo + left ≡ hi → Found p lo hi (find_free_from p left lo)
unfolding find_free_from
find_free_from-Found p zero lo hi e = all_used (λ r a b. absurd (omega arith))
find_free_from-Found p (suc left) lo hi e =
    let rest = find_free_from-Found p left (lo + 1) hi (omega arith) in
    elim (Bool-cases (bitmap_is_set p lo)) [
      | inl used ↦ rw used (Found-pass used rest)
      | inr free ↦
          rw free (first_free lo (omega arith) (omega arith) free (λ r a b. absurd (omega arith)))
    ]

-- `find_free_page(0)` returns the least free page, and 0xFFFFFFFF exactly when none is free.
pub find_free_page-Found : (p : Pmem) → Found p 0 p.total_pages (find_free_page p 0)
unfolding find_free_page
find_free_page-Found p = find_free_from-Found p (p.total_pages - 0) 0 p.total_pages (omega arith)
