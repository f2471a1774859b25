-- ===== src/Heap/Tests.antt =====
-- Tests of the model of src/heap.c, and the theorems at concrete inputs.
use sant_os.Prelude.{ℕ, ◌%◌, ◌<◌, ◌≤◌, some, [], ◌∷◌, ◌==◌, if◌then◌else◌, ◌≡◌, arith, refl}
use sant_os.Heap.{Heap, align_size, heap_init, find_free_block, malloc, free, heap_stats}
use sant_os.Heap.FreeList.{
  IsFreeList, room, align_size_lem, find_free_block_lem, free-IsFreeList, heap_stats_lem,
  heap_init-IsFreeList,
}
use sant_os.Heap.Malloc.{malloc_fails, TakesFirst, malloc-TakesFirst}

-- A heap of 1000 bytes at 4096: one free block.
abbrev small : Heap
small = record {
  size = λ a. if a == 4096 then 976 else 0;
  next = λ a. 0;
  magic = λ a. if a == 4096 then 0xDEADBEEF else 0;
  bytes = λ a. 0;
  heap_start = 4096;
  heap_size = 1000;
  free_list = 4096;
}

small-IsFreeList : IsFreeList small 4096 (4096 ∷ [])
small-IsFreeList = (refl, omega arith, refl, refl, refl)

-- A block that is in use: its header is intact and the list is empty.
abbrev used_up : Heap
used_up = record small { free_list = 0 }

align_size_lem_case : (100 ≤ align_size 100) × (align_size 100 < 116) × (align_size 100 % 16 ≡ 0)
align_size_lem_case = align_size_lem 100 (omega arith)

find_free_block_lem_case : find_free_block 2 small 112 ≡ some 4096
find_free_block_lem_case =
    find_free_block_lem (4096 ∷ []) 2 small 112 small-IsFreeList (omega arith)

free-IsFreeList_example :
    let h' = free used_up 4120 in
    IsFreeList h' h'.free_list (4096 ∷ []) × ((b : ℕ) → h'.size b ≡ used_up.size b)
free-IsFreeList_example = free-IsFreeList [] used_up 4096 refl (omega arith) refl refl

heap_stats_lem_case : heap_stats 2 small ≡ some (1000, 0, 1000)
heap_stats_lem_case =
    heap_stats_lem (4096 ∷ []) 2 small small-IsFreeList (omega arith) (omega arith) (omega arith)

heap_init-IsFreeList_case :
    let h' = heap_init used_up 8192 1048576 in
    IsFreeList h' h'.free_list (8192 ∷ []) × (room h'.size (8192 ∷ []) ≡ 1048576)
heap_init-IsFreeList_case =
    heap_init-IsFreeList used_up 8192 1048576 (omega arith) (omega arith) (omega arith)

malloc_fails_case : malloc 2 small 2000 ≡ some (small, 0)
unfolding align_size
malloc_fails_case = malloc_fails (4096 ∷ []) 2 small 2000 small-IsFreeList (omega arith) refl

malloc-TakesFirst_example :
    (h' : Heap) × (malloc 2 small 100 ≡ some (h', 4120))
    × TakesFirst small 4096 (align_size 100) [] h'
unfolding align_size
malloc-TakesFirst_example =
    malloc-TakesFirst [] 2 small 100 small-IsFreeList (omega arith) (omega arith) (omega arith)
      (omega arith) refl
