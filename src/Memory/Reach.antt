-- ===== src/Memory/Reach.antt =====
-- Any sequence of calls of the physical memory manager, src/memory.c, from its start on.
use sant_os.Prelude.{
  ℕ, ◌+◌, ◌*◌, ◌^◌, ◌<◌, ◌≤◌, zero, suc, u32, ltb, ◌==◌, Option, none, some, ◌∙◌, Bool-cases, inl,
  inr, subst, sym, ap, ◌≡◌, Mem, arith,
}
use sant_os.Memory.{
  Pmem, pmem_init, pmem_alloc_page, pmem_alloc_pages, not_found, pmem_free_page, pmem_free_pages,
  run_is_free, find_free_page,
}
use sant_os.Memory.Bitmap.{IsBytes}
use sant_os.Memory.Pages.{IsValid}
use sant_os.Memory.Alloc.{alloc-IsValid, free-IsValid}
use sant_os.Memory.Runs.{alloc_pages-TakesRun}
use sant_os.Memory.Init.{init-IsValid}

-- A call between two states of the manager, with what its caller keeps to: page 0 is not freed.
pub data Step : Pmem → Pmem → Type 0 where
  allocates : (p : Pmem) → Step p (pmem_alloc_page p).0
  allocates_run :
      {p q : Pmem} {addr : ℕ} (fuel count : ℕ)
      → pmem_alloc_pages fuel p count ≡ some (q, addr)
      → Step p q
  frees : (p : Pmem) (addr : ℕ) → 4096 ≤ addr → Step p (pmem_free_page p addr)
  frees_pages :
      (p : Pmem) (addr count : ℕ)
      → 4096 ≤ addr
      → addr + count * 4096 ≤ 2 ^ 32
      → Step p (pmem_free_pages p addr count)

-- The states that the manager can get into once it has been started with a region.
pub data Reach (ram : Mem) (start size : ℕ) : Pmem → Type 0 where
  started : Reach ram start size (pmem_init ram start size)
  next : {p q : Pmem} → Reach ram start size p → Step p q → Reach ram start size q

free_pages-IsValid :
    (p : Pmem) (addr count : ℕ)
    → IsValid p
    → 4096 ≤ addr
    → addr + count * 4096 ≤ 2 ^ 32
    → IsValid (pmem_free_pages p addr count)
unfolding pmem_free_pages
free_pages-IsValid p addr zero v above fits = v
free_pages-IsValid p addr (suc zero) v above fits = free-IsValid p v addr above
free_pages-IsValid p addr (suc (suc left)) v above fits =
    let next : u32 (addr + 4096) ≡ addr + 4096 = omega arith in
    free_pages-IsValid (pmem_free_page p addr) (u32 (addr + 4096)) (suc left)
      (free-IsValid p v addr above) (omega (arith, next)) (omega (arith, next))

abbrev first_of : Option (Pmem × ℕ) → Pmem → Pmem
first_of none p = p
first_of (some r) p = r.0

abbrev returned : Pmem → ℕ → Option (Pmem × ℕ)
returned p addr = some (p, addr)

unchanged : (p q : Pmem) {addr : ℕ} → IsValid p → returned p 0 ≡ returned q addr → IsValid q
unchanged p q v h = subst IsValid (ap (λ o. first_of o p) h) v

-- An allocation of a run, however it comes out.
alloc_pages-IsValid :
    (fuel count : ℕ) (p q : Pmem) (addr : ℕ)
    → IsValid p
    → pmem_alloc_pages fuel p count ≡ some (q, addr)
    → IsValid q
unfolding pmem_alloc_pages
alloc_pages-IsValid zero count p q addr v h = absurd (ground arith)
alloc_pages-IsValid (suc fuel) count p q addr v h = elim (Bool-cases (count == 0)) [
  | inl none_asked ↦ unchanged p q v (rw (none_asked, pmem_alloc_pages) at h)
  | inr asked ↦ elim (Bool-cases (ltb p.free_pages count)) [
    | inl too_many ↦ unchanged p q v (rw (asked, too_many, pmem_alloc_pages) at h)
    | inr enough ↦ elim (Bool-cases (find_free_page p 0 == not_found)) [
      | inl full ↦ unchanged p q v (rw (asked, enough, full, pmem_alloc_pages) at h)
      | inr there ↦ elim (Bool-cases (run_is_free p count (find_free_page p 0))) [
        | inr short ↦
            alloc_pages-IsValid fuel count p q addr v
              (rw (asked, enough, there, short, pmem_alloc_pages) at h)
        | inl free ↦
            let (p', a, runs, takes) =
              alloc_pages-TakesRun p v count fuel (ground arith) (ground arith) free in
            let same : p' ≡ q = ap (λ o. first_of o p) (sym runs ∙ h) in
            subst IsValid same takes.valid
      ]
    ]
  ]
]

Step-IsValid : {p q : Pmem} → Step p q → IsValid p → IsValid q
Step-IsValid (allocates p) v = alloc-IsValid p v
Step-IsValid (allocates_run fuel count runs) v = alloc_pages-IsValid fuel count _ _ _ v runs
Step-IsValid (frees p addr above) v = free-IsValid p v addr above
Step-IsValid (frees_pages p addr count above fits) v = free_pages-IsValid p addr count v above fits

-- The invariant of the manager holds in every state that calls can lead to from a start with a
-- region of at least one page and less than 4 GB, whatever is allocated and freed in which order,
-- where page 0 is not freed and no run reaches beyond 4 GB.
pub Reach-IsValid :
    (ram : Mem) (start size : ℕ) (p : Pmem)
    → IsBytes ram
    → 4096 ≤ size
    → size < 2 ^ 32
    → Reach ram start size p
    → IsValid p
Reach-IsValid ram start size p bytes one small started =
    (init-IsValid ram start size bytes one small).0
Reach-IsValid ram start size p bytes one small (next before step) =
    Step-IsValid step (Reach-IsValid ram start size _ bytes one small before)
