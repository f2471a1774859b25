-- ===== src/Heap.antt =====
-- The kernel heap, src/heap.c: a free list of blocks behind headers. A loop along the list is on
-- fuel, and `none` is a loop that has used it up.
pub mod FreeList
pub mod Malloc
mod Tests
use sant_os.Prelude.{
  ℕ, zero, suc, ◌+◌, ◌-◌, ◌*◌, ◌/◌, Mem, store, Bool, true, false, not, Option, none, some, ◌==◌,
  ltb, leb, if◌then◌else◌, u32, u64, sub64, sub32,
}
use Prim.Native.Nat.{min}
use sant_os.Strings.{copy_up, set_up}

abbrev pub heap_magic : ℕ
heap_magic = 0xDEADBEEF

abbrev pub block_header_size : ℕ
block_header_size = 24

abbrev pub alignment : ℕ
alignment = 16

-- The fields of the `block_header_t` at each address, the bytes that users store, and the
-- variables of the file.
pub record Heap : Type 0 where
  pub size : Mem
  pub next : Mem
  pub magic : Mem
  pub bytes : Mem
  pub heap_start : ℕ
  pub heap_size : ℕ
  pub free_list : ℕ

-- `(size + 15) & ~15`
unfoldable pub align_size : ℕ → ℕ
align_size size = u64 (size + (alignment - 1)) / alignment * alignment

unfoldable pub heap_init : Heap → ℕ → ℕ → Heap
heap_init h start size = record h {
  heap_start = start;
  heap_size = size;
  free_list = start;
  size = store h.size start (sub64 size block_header_size);
  next = store h.next start 0;
  magic = store h.magic start heap_magic;
}

unfoldable pub find_from : ℕ → Heap → ℕ → ℕ → Option ℕ
find_from zero h current size = none
find_from (suc fuel) h current size =
    let rest = find_from fuel h (h.next current) size in
    if current == 0
    then some 0
    else if not (h.magic current == heap_magic)
    then some 0
    else if leb size (h.size current)
    then some current
    else rest

unfoldable pub find_free_block : ℕ → Heap → ℕ → Option ℕ
find_free_block fuel h size = find_from fuel h h.free_list size

unfoldable pub split_block : Heap → ℕ → ℕ → Heap
split_block h block size =
    let new = block + block_header_size + size in
    if leb (u64 (size + block_header_size + alignment)) (h.size block)
    then record h {
      size = store (store h.size new (h.size block - size - block_header_size)) block size;
      next = store (store h.next new (h.next block)) block new;
      magic = store h.magic new heap_magic;
    }
    else h

-- `while (current != NULL && current->next != block)`, and the store behind it.
unfoldable pub unlink : ℕ → Heap → ℕ → ℕ → Option Heap
unlink zero h current block = none
unlink (suc fuel) h current block =
    let rest = unlink fuel h (h.next current) block in
    if current == 0
    then some h
    else if h.next current == block
    then some (record h { next = store h.next current (h.next block) })
    else rest

unfoldable pub remove_from_free_list : ℕ → Heap → ℕ → Option Heap
remove_from_free_list fuel h block =
    if h.free_list == block
    then some (record h { free_list = h.next block })
    else unlink fuel h h.free_list block

-- What `malloc` does with the block that it has found.
unfoldable pub take_block : ℕ → Heap → ℕ → ℕ → Option (Heap × ℕ)
take_block fuel h block size = elim (remove_from_free_list fuel (split_block h block size) block) [
  | none ↦ none
  | some h' ↦ some (record h' { next = store h'.next block 0 }, block + block_header_size)
]

-- The address returned, 0 for `NULL`.
unfoldable pub malloc : ℕ → Heap → ℕ → Option (Heap × ℕ)
malloc fuel h size =
    if size == 0 then some (h, 0) else elim (find_free_block fuel h (align_size size)) [
      | none ↦ none
      | some block ↦ if block == 0 then some (h, 0) else take_block fuel h block (align_size size)
    ]

unfoldable pub free : Heap → ℕ → Heap
free h ptr =
    let block = ptr - block_header_size in
    if ptr == 0
    then h
    else if h.magic block == heap_magic
    then record h { next = store h.next block h.free_list; free_list = block }
    else h

-- The end of `realloc`, with the new block.
unfoldable pub move_block : Heap → ℕ → ℕ → ℕ → Heap × ℕ
move_block h ptr size new_ptr =
    let n = min (h.size (ptr - block_header_size)) size in
    if new_ptr == 0
    then (h, 0)
    else (free (record h { bytes = copy_up new_ptr ptr n 0 h.bytes }) ptr, new_ptr)

unfoldable pub realloc : ℕ → Heap → ℕ → ℕ → Option (Heap × ℕ)
realloc fuel h ptr size =
    let block = ptr - block_header_size in
    if ptr == 0
    then malloc fuel h size
    else if size == 0
    then some (free h ptr, 0)
    else if not (h.magic block == heap_magic)
    then some (h, 0)
    else if leb (align_size size) (h.size block)
    then some (h, ptr)
    else elim (malloc fuel h size) [ none ↦ none | some r ↦ some (move_block r.0 ptr size r.1) ]

unfoldable pub calloc : ℕ → Heap → ℕ → ℕ → Option (Heap × ℕ)
calloc fuel h nmemb size =
    let total_size = u64 (nmemb * size) in
    elim (malloc fuel h total_size) [
      | none ↦ none
      | some r ↦
          if r.1 == 0
          then some (r.0, 0)
          else some (record r.0 { bytes = set_up r.1 0 total_size 0 r.0.bytes }, r.1)
    ]

unfoldable pub free_sum : ℕ → Heap → ℕ → ℕ → Option ℕ
free_sum zero h current sum = none
free_sum (suc fuel) h current sum =
    let rest = free_sum fuel h (h.next current) (u32 (sum + h.size current + block_header_size)) in
    if current == 0 then some sum else rest

-- The total, the bytes in use and the free bytes.
unfoldable pub heap_stats : ℕ → Heap → Option (ℕ × ℕ × ℕ)
heap_stats fuel h = elim (free_sum fuel h h.free_list 0) [
  | none ↦ none
  | some sum ↦ some (u32 h.heap_size, u32 (sub64 h.heap_size sum), sum)
]
