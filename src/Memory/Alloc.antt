-- ===== src/Memory/Alloc.antt =====
-- `pmem_alloc_page` and `pmem_free_page` of src/memory.c keep the invariant and undo one another.
use sant_os.Prelude.{
  ℕ, zero, suc, ◌+◌, ◌-◌, ◌*◌, ◌/◌, ◌<◌, ◌≤◌, true, false, ◌&&◌, ◌||◌, ◌==◌, ltb, ◌≡◌, ◌≢◌, ◌⊎◌,
  arith, refl, Bool-cases, inl, inr, not, u32, ap, sym, ◌∙◌,
}
use sant_os.Memory.{
  Pmem, bitmap_set, bitmap_clear, bitmap_is_set, not_found, find_free_page, pmem_alloc_page,
  pmem_free_page,
}
use sant_os.Memory.Bitmap.{is_set-set, is_set-clear, set-IsBytes, clear-IsBytes}
use sant_os.Memory.Pages.{
  free_count, free_count_full, IsValid, count_set, count_clear, Found, first_free, all_used,
  find_free_page-Found,
}

-- The counters do not enter into the bits.
pub is_set_counts :
    (p : Pmem) (n r : ℕ) → bitmap_is_set (record p { free_pages = n }) r ≡ bitmap_is_set p r
unfolding bitmap_is_set
is_set_counts p n r = refl

pub free_count_counts :
    (k : ℕ) (p : Pmem) (n : ℕ) → free_count k (record p { free_pages = n }) ≡ free_count k p
unfolding free_count
free_count_counts zero p n = refl
free_count_counts (suc k) p n = ground (arith, is_set_counts p n k, free_count_counts k p n)

pub total-set : (p : Pmem) (q : ℕ) → (bitmap_set p q).total_pages ≡ p.total_pages
unfolding bitmap_set
total-set p q = refl

total-clear : (p : Pmem) (q : ℕ) → (bitmap_clear p q).total_pages ≡ p.total_pages
unfolding bitmap_clear
total-clear p q = refl

-- What an allocation that succeeds does: it takes the least free page.
pub record Takes (p : Pmem) (q : ℕ) (result : Pmem × ℕ) : Type 0 where
  pub in_range : q < p.total_pages
  pub was_free : bitmap_is_set p q ≡ false
  pub least : (r : ℕ) → r < q → bitmap_is_set p r ≡ true
  pub address : result.1 ≡ q * 4096
  pub bits : (r : ℕ) → bitmap_is_set result.0 r ≡ (q == r || bitmap_is_set p r)
  pub count : result.0.free_pages + 1 ≡ p.free_pages
  pub total : result.0.total_pages ≡ p.total_pages

module _ (p : Pmem) (v : IsValid p) where
  pub least_free :
      {r : ℕ}
      → Found p 0 p.total_pages r
      → p.free_pages ≢ 0
      → (r < p.total_pages)
        × (bitmap_is_set p r ≡ false)
        × ((s : ℕ) → s < r → bitmap_is_set p s ≡ true)
  least_free (first_free q a b free before) some_free = (b, free, λ s lt. before s (omega arith) lt)
  least_free (all_used all) some_free =
      let none = free_count_full p.total_pages p (λ q lt. all q (omega arith) lt) in
      absurd (some_free (v.counted ∙ none))

  -- In a valid state with a free page left, `pmem_alloc_page` takes the least free page and
  -- returns its number times 4096, which is not 0; it marks that page alone, and counts it.
  pub alloc-Takes :
      p.free_pages ≢ 0
      → (q : ℕ) × Takes p q (pmem_alloc_page p) × ((pmem_alloc_page p).1 ≢ 0) × (q ≢ 0)
  unfolding pmem_alloc_page
  alloc-Takes some_free =
      let q = find_free_page p 0 in
      let (lt, free, before) = least_free (find_free_page-Found p) some_free in
      let q_pos : q ≢ 0 = λ e. cc (ap (bitmap_is_set p) e, free, v.first_used) in
      let small = v.small in
      let c1 : (p.free_pages == 0) ≡ false = ground arith in
      let c2 : (q == not_found) ≡ false = ground arith in
      (
        q,
        rw (c1, c2)
            (record {
              in_range = lt;
              was_free = free;
              least = before;
              address = omega arith;
              bits = λ r.
                  is_set_counts (bitmap_set p q) (p.free_pages - 1) r ∙ is_set-set p q r v.bytes;
              count = omega arith;
              total = total-set p q;
            }),
        rw (c1, c2) (omega arith),
        q_pos,
      )

  -- `pmem_alloc_page` keeps the invariant, whether it succeeds or not.
  pub alloc-IsValid : IsValid (pmem_alloc_page p).0
  unfolding pmem_alloc_page
  alloc-IsValid = elim (Bool-cases (p.free_pages == 0)) [
    | inl none ↦ rw none v
    | inr some_free ↦
        let q = find_free_page p 0 in
        let (lt, free, before) = least_free (find_free_page-Found p) (ground arith) in
        let small = v.small in
        let c2 : (q == not_found) ≡ false = ground arith in
        let n = p.free_pages - 1 in
        let fewer = count_set p q v.bytes p.total_pages lt free in
        rw (some_free, c2)
          (record {
            bytes = set-IsBytes p q v.bytes;
            counted =
                let kept = free_count_counts p.total_pages (bitmap_set p q) n in
                let here : n
                    ≡ free_count p.total_pages (record (bitmap_set p q) { free_pages = n }) =
                  omega (arith, kept, fewer, v.counted) in
                here
                ∙ ap (λ k. free_count k (record (bitmap_set p q) { free_pages = n }))
                    (sym (total-set p q));
            small = rw (total-set p q) small;
            first_used =
                is_set_counts (bitmap_set p q) n 0
                ∙ is_set-set p q 0 v.bytes
                ∙ ground (arith, v.first_used);
          })
  ]

free_count-le : (n : ℕ) (p : Pmem) → free_count n p ≤ n
unfolding free_count
free_count-le zero p = omega arith
free_count-le (suc n) p = ground (arith, free_count-le n p)

module _ (p : Pmem) (v : IsValid p) (addr : ℕ) where
  -- Freeing address 0, an address past the last page, or a page that is free changes nothing.
  pub free_ignored :
      (addr ≡ 0) ⊎ ((p.total_pages ≤ addr / 4096) ⊎ (bitmap_is_set p (addr / 4096) ≡ false))
      → pmem_free_page p addr ≡ p
  unfolding pmem_free_page
  free_ignored h = ground arith

  freed :
      addr ≢ 0
      → addr / 4096 < p.total_pages
      → bitmap_is_set p (addr / 4096) ≡ true
      → pmem_free_page p addr
        ≡ record (bitmap_clear p (addr / 4096)) { free_pages = p.free_pages + 1 }
  unfolding pmem_free_page
  freed ne lt used =
      let small = v.small in
      let fits : u32 (p.free_pages + 1) ≡ p.free_pages + 1 =
        omega (arith, v.counted, free_count-le p.total_pages p) in
      ground arith

  -- Freeing an address above the first page keeps the invariant, also where it is ignored.
  pub free-IsValid : 4096 ≤ addr → IsValid (pmem_free_page p addr)
  free-IsValid above = elim (Bool-cases (ltb (addr / 4096) p.total_pages)) [
    | inr outside ↦ rw (free_ignored (inr (inl (ground arith)))) v
    | inl inside ↦ elim (Bool-cases (bitmap_is_set p (addr / 4096))) [
      | inr unused ↦ rw (free_ignored (inr (inr unused))) v
      | inl used ↦
          let q = addr / 4096 in
          let lt : q < p.total_pages = ground arith in
          let small = v.small in
          let more = count_clear p q v.bytes p.total_pages lt used in
          let n = p.free_pages + 1 in
          rw (freed (omega arith) lt used) (record {
            bytes = clear-IsBytes p q v.bytes;
            counted =
                let kept = free_count_counts p.total_pages (bitmap_clear p q) n in
                let here : n
                    ≡ free_count p.total_pages (record (bitmap_clear p q) { free_pages = n }) =
                  omega (arith, kept, more, v.counted) in
                here
                ∙ ap (λ k. free_count k (record (bitmap_clear p q) { free_pages = n }))
                    (sym (total-clear p q));
            small = rw (total-clear p q) small;
            first_used =
                is_set_counts (bitmap_clear p q) n 0
                ∙ is_set-clear p q 0 v.bytes
                ∙ ground (arith, v.first_used);
          })
    ]
  ]

module _ (p : Pmem) (v : IsValid p) where
  undone :
      (q r : ℕ)
      → Takes p q (pmem_alloc_page p)
      → (not (q == r) && bitmap_is_set (pmem_alloc_page p).0 r) ≡ bitmap_is_set p r
  undone q r takes = elim (Bool-cases (q == r)) [
    | inl same ↦
        let e : q ≡ r = ground arith in
        rw same (sym (ap (bitmap_is_set p) (sym e) ∙ takes.was_free))
    | inr other ↦ let bits = takes.bits r in rw (other, bits, other)
  ]

  -- In a valid state with a free page, freeing the address that `pmem_alloc_page` has just returned
  -- gives back every bit of the bitmap and the count of free pages.
  pub free-alloc :
      p.free_pages ≢ 0
      → let (p', addr) = pmem_alloc_page p in
        ((r : ℕ) → bitmap_is_set (pmem_free_page p' addr) r ≡ bitmap_is_set p r)
        × ((pmem_free_page p' addr).free_pages ≡ p.free_pages)
  free-alloc some_free =
      let (q, takes, addr_ne, q_ne) = alloc-Takes p v some_free in
      let p' = (pmem_alloc_page p).0 in
      let addr = (pmem_alloc_page p).1 in
      let v' = alloc-IsValid p v in
      let page : addr / 4096 ≡ q = omega (arith, takes.address) in
      let inside : addr / 4096 < p'.total_pages =
        omega (arith, page, takes.in_range, takes.total) in
      let self : (q == q) ≡ true = ground arith in
      let used : bitmap_is_set p' (addr / 4096) ≡ true =
        ap (bitmap_is_set p') page ∙ takes.bits q ∙ rw self in
      let back = freed p' v' addr addr_ne inside used in
      (
        λ r.
            ap (λ (s : Pmem). bitmap_is_set s r) back
            ∙ is_set_counts (bitmap_clear p' (addr / 4096)) (p'.free_pages + 1) r
            ∙ is_set-clear p' (addr / 4096) r v'.bytes
            ∙ ap (λ (k : ℕ). not (k == r) && bitmap_is_set p' r) page
            ∙ undone q r takes,
        ap (λ (s : Pmem). s.free_pages) back ∙ takes.count,
      )
