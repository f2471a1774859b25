-- ===== src/Fat12/Table.antt =====
-- The file allocation table of src/fat12.c: `get_fat_entry`, `set_fat_entry`, `find_free_cluster`.
-- `fat_buffer` is memory from its first byte on, so that an access behind its 4608 bytes is
-- an access to what stands there.
pub mod Entries
pub mod Map
pub mod Free
use sant_os.Prelude.{
  ℕ, zero, suc, ◌+◌, ◌-◌, ◌*◌, ◌/◌, ◌%◌, ◌^◌, ◌<◌, bit_and, bit_or, Mem, store, u16, ◌==◌, nonzero,
  if◌then◌else◌,
}

-- `*(uint16_t*)&buf[i]`, lowest byte first, and a store through such a pointer.
unfoldable pub load16 : Mem → ℕ → ℕ
load16 buf i = buf i + 256 * buf (i + 1)

unfoldable pub store16 : Mem → ℕ → ℕ → Mem
store16 buf i v = store (store buf i (v % 256)) (i + 1) (v / 256 % 256)

-- 12-bit entries: two in three bytes.
unfoldable pub fat_offset : ℕ → ℕ
fat_offset cluster = cluster + cluster / 2

unfoldable pub get_fat_entry : Mem → ℕ → ℕ
unfolding load16 fat_offset
get_fat_entry buf cluster =
    let entry = load16 buf (fat_offset cluster) in
    if nonzero (bit_and cluster 1) then entry / 2 ^ 4 else bit_and entry 0x0FFF

unfoldable pub set_fat_entry : Mem → ℕ → ℕ → Mem
unfolding load16 store16 fat_offset
set_fat_entry buf cluster value =
    let offset = fat_offset cluster in
    let entry = load16 buf offset in
    if nonzero (bit_and cluster 1)
    then store16 buf offset (u16 (bit_or (bit_and entry 0x000F) (value * 2 ^ 4)))
    else store16 buf offset (bit_or (bit_and entry 0xF000) (bit_and value 0x0FFF))

-- The loop from `cluster` on, with the clusters left up to 0xFF0; 0 says that none is free.
unfoldable pub find_free_from : Mem → ℕ → ℕ → ℕ
find_free_from buf zero cluster = 0
find_free_from buf (suc left) cluster =
    let rest = find_free_from buf left (cluster + 1) in
    if get_fat_entry buf cluster == 0 then cluster else rest

unfoldable pub find_free_cluster : Mem → ℕ
unfolding find_free_from
find_free_cluster buf = find_free_from buf (0xFF0 - 2) 2
