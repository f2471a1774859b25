-- ===== src/Heap/FreeList.antt =====
-- The free list of src/heap.c as a list of blocks.
use sant_os.Prelude.{
  ℕ, zero, suc, ◌+◌, ◌-◌, ◌%◌, ◌^◌, ◌<◌, ◌≤◌, Mem, store, Bool, true, false, ◌||◌, some, List, [],
  ◌∷◌, ◌==◌, leb, if◌then◌else◌, ◌≡◌, ◌≢◌, arith, refl, length, u32, sub64, ◌∙◌, sym, ap, subst,
}
use sant_os.Heap.{
  Heap, heap_magic, align_size, heap_init, find_from, find_free_block, free, free_sum, heap_stats,
}

abbrev pub has : ℕ → List ℕ → Bool
has a [] = false
has a (x ∷ xs) = x == a || has a xs

-- The list that begins at `a` has the blocks `xs`, each once, with their magic number.
abbrev pub IsFreeList : Heap → ℕ → List ℕ → Type 0
IsFreeList h a [] = a ≡ 0
IsFreeList h a (x ∷ xs) =
    (x ≡ a) × (a ≢ 0) × (h.magic a ≡ heap_magic) × (has a xs ≡ false) × IsFreeList h (h.next a) xs

-- The first block that has room, 0 if none has.
abbrev pub first_fit : Mem → ℕ → List ℕ → ℕ
first_fit size n [] = 0
first_fit size n (x ∷ xs) = if leb n (size x) then x else first_fit size n xs

-- The bytes of the blocks with their headers.
abbrev pub room : Mem → List ℕ → ℕ
room size [] = 0
room size (x ∷ xs) = size x + 24 + room size xs

-- `align_size` gives the least multiple of 16 that is not below the size.
pub align_size_lem :
    (n : ℕ)
    → n < 2 ^ 64 - 15
    → (n ≤ align_size n) × (align_size n < n + 16) × (align_size n % 16 ≡ 0)
unfolding align_size
align_size_lem n h = omega arith

find_from_lem :
    (xs : List ℕ) (fuel : ℕ) (h : Heap) (a n : ℕ)
    → IsFreeList h a xs
    → length xs < fuel
    → find_from fuel h a n ≡ some (first_fit h.size n xs)
unfolding find_from
find_from_lem xs zero h a n l enough = absurd (omega arith)
find_from_lem [] (suc fuel) h a n l enough = ground arith
find_from_lem (x ∷ xs) (suc fuel) h a n l enough =
    let (here, nz, magic, once, rest) = l in
    let rest' = find_from_lem xs fuel h (h.next a) n rest (omega arith) in ground arith

-- With one round more than the free list has blocks, `find_free_block` returns the first block of
-- the list that has room, `NULL` if none has.
pub find_free_block_lem :
    (xs : List ℕ) (fuel : ℕ) (h : Heap) (n : ℕ)
    → IsFreeList h h.free_list xs
    → length xs < fuel
    → find_free_block fuel h n ≡ some (first_fit h.size n xs)
unfolding find_free_block
find_free_block_lem xs fuel h n l enough = find_from_lem xs fuel h h.free_list n l enough

free_sum_lem :
    (xs : List ℕ) (fuel : ℕ) (h : Heap) (a sum : ℕ)
    → IsFreeList h a xs
    → length xs < fuel
    → sum + room h.size xs < 2 ^ 32
    → free_sum fuel h a sum ≡ some (sum + room h.size xs)
unfolding free_sum
free_sum_lem xs zero h a sum l enough fits = absurd (omega arith)
free_sum_lem [] (suc fuel) h a sum l enough fits = ground arith
free_sum_lem (x ∷ xs) (suc fuel) h a sum l enough fits =
    let (here, nz, magic, once, rest) = l in
    let e : u32 (sum + h.size a + 24) ≡ sum + h.size a + 24 = ground arith in
    let rest' =
      free_sum_lem xs fuel h (h.next a) (sum + h.size a + 24) rest (omega arith) (ground arith) in
    ground arith

-- The chain does not read the header of a block that it does not have.
pub IsFreeList-frame :
    (xs : List ℕ) (h h' : Heap) (a : ℕ)
    → ((b : ℕ) → has b xs ≡ true → (h'.next b ≡ h.next b) × (h'.magic b ≡ h.magic b))
    → IsFreeList h a xs
    → IsFreeList h' a xs
IsFreeList-frame [] h h' a same l = l
IsFreeList-frame (x ∷ xs) h h' a same l =
    let (here, nz, magic, once, rest) = l in
    let (n, m) = same a (ground arith) in
    (
      here,
      nz,
      m ∙ magic,
      once,
      rw n (IsFreeList-frame xs h h' (h.next a) (λ b hb. same b (ground arith)) rest),
    )

pub store_here : (m : Mem) (k v : ℕ) → store m k v k ≡ v
unfolding store
store_here m k v = ground arith

pub store_other : (m : Mem) (k v a : ℕ) → a ≢ k → store m k v a ≡ m a
unfolding store
store_other m k v a ne = ground arith

pub has-ne : (xs : List ℕ) (a b : ℕ) → has a xs ≡ true → has b xs ≡ false → a ≢ b
has-ne xs a b ha hb e = cc (ap (λ t. has t xs) e, ha, hb)

-- Giving back a block at an address other than 0 whose header is intact and that is not in the free
-- list puts it in front of the list; no block changes its size.
pub free-IsFreeList :
    (xs : List ℕ) (h : Heap) (block : ℕ)
    → IsFreeList h h.free_list xs
    → block ≢ 0
    → h.magic block ≡ heap_magic
    → has block xs ≡ false
    → let h' = free h (block + 24) in
      IsFreeList h' h'.free_list (block ∷ xs) × ((b : ℕ) → h'.size b ≡ h.size b)
unfolding free
free-IsFreeList xs h block l nz magic new =
    let back : block + 24 - 24 ≡ block = omega arith in
    let ptr : (block + 24 == 0) ≡ false = ground arith in
    let intact : (h.magic block == heap_magic) ≡ true = ground arith in
    let h' : Heap = record h { next = store h.next block h.free_list; free_list = block } in
    let head : h'.next block ≡ h.free_list = store_here h.next block h.free_list in
    let tail : IsFreeList h' h.free_list xs =
      IsFreeList-frame xs h h' h.free_list
        (λ b hb. (store_other h.next block h.free_list b (has-ne xs b block hb new), refl)) l in
    let step : free h (block + 24) ≡ h' = rw (ptr, back, intact) in
    subst (λ (g : Heap). IsFreeList g g.free_list (block ∷ xs) × ((b : ℕ) → g.size b ≡ h.size b))
      (sym step) ((refl, nz, magic, new, rw head tail), λ b. refl)

-- Where the blocks of the free list with their headers fit the heap, and its size fits 32 bits,
-- `heap_stats` counts these blocks as free and all else of the heap as in use; one round more than
-- there are blocks is enough.
pub heap_stats_lem :
    (xs : List ℕ) (fuel : ℕ) (h : Heap)
    → IsFreeList h h.free_list xs
    → length xs < fuel
    → room h.size xs ≤ h.heap_size
    → h.heap_size < 2 ^ 32
    → heap_stats fuel h ≡ some (h.heap_size, h.heap_size - room h.size xs, room h.size xs)
unfolding heap_stats
heap_stats_lem xs fuel h l enough fits small =
    let sum : free_sum fuel h h.free_list 0 ≡ some (room h.size xs) =
      free_sum_lem xs fuel h h.free_list 0 l enough (omega arith)
      ∙ ap some (zero_plus (room h.size xs)) in
    let total : u32 h.heap_size ≡ h.heap_size = omega arith in
    let used : u32 (sub64 h.heap_size (room h.size xs)) ≡ h.heap_size - room h.size xs =
      omega arith in
    rw (heap_stats, sum, total, used)
  where
    zero_plus : (n : ℕ) → 0 + n ≡ n
    zero_plus n = omega arith

-- `heap_init` leaves one block that, with its header, takes the whole heap.
pub heap_init-IsFreeList :
    (h : Heap) (start size : ℕ)
    → start ≢ 0
    → 24 ≤ size
    → size < 2 ^ 64
    → let h' = heap_init h start size in
      IsFreeList h' h'.free_list (start ∷ []) × (room h'.size (start ∷ []) ≡ size)
unfolding heap_init
heap_init-IsFreeList h start size nz big small =
    let left : sub64 size 24 + 24 + 0 ≡ size = omega arith in
    (
      (refl, nz, store_here h.magic start heap_magic, refl, store_here h.next start 0),
      rw (store_here h.size start (sub64 size 24)) left,
    )
