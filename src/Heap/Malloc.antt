-- ===== src/Heap/Malloc.antt =====
-- `malloc` of src/heap.c where the first block of the free list has room, and where none has.
use sant_os.Prelude.{
  ℕ, ◌+◌, ◌-◌, ◌^◌, ◌<◌, ◌≤◌, Mem, store, true, false, some, List, [], ◌∷◌, ◌==◌, leb,
  if◌then◌else◌, ◌≡◌, ◌≢◌, arith, refl, length, u64, Bool-cases, inl, inr, ◌∙◌, ap,
}
use sant_os.Heap.{
  Heap, heap_magic, align_size, find_free_block, split_block, remove_from_free_list, take_block,
  malloc,
}
use sant_os.Heap.FreeList.{
  has, IsFreeList, first_fit, room, find_free_block_lem, IsFreeList-frame, align_size_lem,
  store_here, store_other, has-ne,
}

-- With one round more than the free list has blocks, `malloc` returns; where no block has room
-- for the size, or the size is 0, it returns `NULL` and changes nothing.
pub malloc_fails :
    (xs : List ℕ) (fuel : ℕ) (h : Heap) (size : ℕ)
    → IsFreeList h h.free_list xs
    → length xs < fuel
    → first_fit h.size (align_size size) xs ≡ 0
    → malloc fuel h size ≡ some (h, 0)
unfolding malloc
malloc_fails xs fuel h size l enough full =
    let search = find_free_block_lem xs fuel h (align_size size) l enough ∙ ap some full in
    elim (Bool-cases (size == 0)) [
      | inl zero_size ↦ rw zero_size
      | inr some_size ↦ rw (some_size, search)
    ]

room-frame :
    (xs : List ℕ) (m m' : Mem) → ((b : ℕ) → has b xs ≡ true → m' b ≡ m b) → room m' xs ≡ room m xs
room-frame [] m m' same = refl
room-frame (x ∷ xs) m m' same =
    let self : (x == x) ≡ true = ground arith in
    let rest = room-frame xs m m' (λ b hb. same b (ground arith)) in
    omega (arith, same x (rw self refl), rest)

-- The list after the block `a` has been taken from its front for `s` bytes.
abbrev pub left_over : Heap → ℕ → ℕ → List ℕ → List ℕ
left_over h a s post = if leb (s + 40) (h.size a) then (a + 24 + s) ∷ post else post

-- What taking a block from the front of the list does.
pub record TakesFirst (h : Heap) (a s : ℕ) (post : List ℕ) (h' : Heap) : Type 0 where
  pub list : IsFreeList h' h'.free_list (left_over h a s post)
  pub big : s ≤ h'.size a
  pub total : h'.size a + 24 + room h'.size (left_over h a s post) ≡ room h.size (a ∷ post)

module _ (h : Heap) (a s : ℕ) (post : List ℕ) where
  abbrev whole : Heap
  whole = record h { free_list = h.next a; next = store h.next a 0 }

  abbrev fresh : ℕ
  fresh = a + 24 + s

  abbrev parted : Heap
  parted = record h {
    size = store (store h.size fresh (h.size a - s - 24)) a s;
    next = store (store (store h.next fresh (h.next a)) a fresh) a 0;
    magic = store h.magic fresh heap_magic;
    free_list = store (store h.next fresh (h.next a)) a fresh a;
  }

  whole-TakesFirst :
      IsFreeList h a (a ∷ post)
      → s ≤ h.size a
      → leb (s + 40) (h.size a) ≡ false
      → TakesFirst h a s post whole
  whole-TakesFirst l fits no_split =
      let (here, nz, magic, once, rest) = l in
      let kept : IsFreeList whole (h.next a) post =
        IsFreeList-frame post h whole (h.next a)
          (λ b hb. (store_other h.next a 0 b (has-ne post b a hb once), refl)) rest in
      record { list = rw no_split kept; big = fits; total = rw no_split refl }

  parted_next : (b : ℕ) → b ≢ a → b ≢ fresh → parted.next b ≡ h.next b
  parted_next b na nf =
      store_other (store (store h.next fresh (h.next a)) a fresh) a 0 b na
      ∙ store_other (store h.next fresh (h.next a)) a fresh b na
      ∙ store_other h.next fresh (h.next a) b nf

  parted-TakesFirst :
      IsFreeList h a (a ∷ post)
      → has fresh post ≡ false
      → leb (s + 40) (h.size a) ≡ true
      → TakesFirst h a s post parted
  parted-TakesFirst l new split =
      let (here, nz, magic, once, rest) = l in
      let ne : fresh ≢ a = omega arith in
      let kept : IsFreeList parted (h.next a) post =
        IsFreeList-frame post h parted (h.next a)
          (λ b hb.
            let nf = has-ne post b fresh hb new in
            (parted_next b (has-ne post b a hb once) nf, store_other h.magic fresh heap_magic b nf))
          rest in
      let size_a : parted.size a ≡ s = store_here (store h.size fresh (h.size a - s - 24)) a s in
      let size_fresh : parted.size fresh ≡ h.size a - s - 24 =
        store_other (store h.size fresh (h.size a - s - 24)) a s fresh ne
        ∙ store_here h.size fresh (h.size a - s - 24) in
      let next_fresh : parted.next fresh ≡ h.next a =
        store_other (store (store h.next fresh (h.next a)) a fresh) a 0 fresh ne
        ∙ store_other (store h.next fresh (h.next a)) a fresh fresh ne
        ∙ store_here h.next fresh (h.next a) in
      let front : parted.free_list ≡ fresh = store_here (store h.next fresh (h.next a)) a fresh in
      let tail_room : room parted.size post ≡ room h.size post =
        room-frame post h.size parted.size (λ b hb.
          store_other (store h.size fresh (h.size a - s - 24)) a s b (has-ne post b a hb once)
          ∙ store_other h.size fresh (h.size a - s - 24) b (has-ne post b fresh hb new)) in
      let chain : IsFreeList parted fresh (fresh ∷ post) =
        (refl, omega arith, store_here h.magic fresh heap_magic, new, rw next_fresh kept) in
      let enough : s + 40 ≤ h.size a = ground arith in
      record {
        list = rw (split, front) chain;
        big = omega (arith, size_a);
        total = rw split (omega (arith, size_a, size_fresh, tail_room, enough));
      }

abbrev split_in_two : Heap → ℕ → ℕ → Heap
split_in_two h a s = record h {
  size = store (store h.size (a + 24 + s) (h.size a - s - 24)) a s;
  next = store (store h.next (a + 24 + s) (h.next a)) a (a + 24 + s);
  magic = store h.magic (a + 24 + s) heap_magic;
}

removed :
    (fuel : ℕ) (h : Heap) (a : ℕ)
    → (h.free_list == a) ≡ true
    → remove_from_free_list fuel h a ≡ some (record h { free_list = h.next a })
unfolding remove_from_free_list
removed fuel h a front = rw front

-- Where the first block of the free list has room for a size that is not 0 and below 2 ^ 63,
-- `malloc` returns the address behind its header, with one round more than the list has blocks.
-- What is left of the block, if it is enough for a block of 16 bytes, takes its place in the list;
-- the block that is handed out has room for the size, and no byte of the free blocks and their
-- headers is lost. It is a condition that no other free block stands at the address of the new
-- header.
pub malloc-TakesFirst :
    (post : List ℕ) (fuel : ℕ) (h : Heap) (size : ℕ)
    → let a = h.free_list in
      let s = align_size size in
      IsFreeList h a (a ∷ post)
      → length (a ∷ post) < fuel
      → size ≢ 0
      → size < 2 ^ 63
      → s ≤ h.size a
      → has (a + 24 + s) post ≡ false
      → (h' : Heap) × (malloc fuel h size ≡ some (h', a + 24)) × TakesFirst h a s post h'
unfolding malloc take_block split_block
malloc-TakesFirst post fuel h size l enough nz small fits new =
    let a = h.free_list in
    let s = align_size size in
    let search = find_free_block_lem (a ∷ post) fuel h s l enough in
    let (below, above, mult) = align_size_lem size (omega arith) in
    let some_size : (size == 0) ≡ false = ground arith in
    let first : leb s (h.size a) ≡ true = ground arith in
    let search' : find_free_block fuel h s ≡ some a = rw first at search in
    let a_ne : (a == 0) ≡ false = let z = l.1 in ground arith in
    let self : (a == a) ≡ true = ground arith in
    let word : u64 (s + 24 + 16) ≡ s + 40 = omega (arith, above) in
    elim (Bool-cases (leb (s + 40) (h.size a))) [
      | inr no_split ↦
          let same : split_block h a s ≡ h = rw (split_block, word, no_split) in
          let out = removed fuel h a self in
          let take : take_block fuel h a s ≡ some (whole h a s post, a + 24) =
            rw (take_block, same, out) in
          (
            whole h a s post,
            rw (some_size, search', a_ne, take) refl,
            whole-TakesFirst h a s post l fits no_split,
          )
      | inl split ↦
          let h1 = split_in_two h a s in
          let same : split_block h a s ≡ h1 = rw (split_block, word, split) in
          let out = removed fuel h1 a self in
          let take : take_block fuel h a s ≡ some (parted h a s post, a + 24) =
            rw (take_block, same, out) in
          (
            parted h a s post,
            rw (some_size, search', a_ne, take) refl,
            parted-TakesFirst h a s post l new split,
          )
    ]
