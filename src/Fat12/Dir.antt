-- ===== src/Fat12/Dir.antt =====
-- Directory sectors in src/fat12.c: 16 entries of 32 bytes, read and written in a sector buffer.
pub mod Scanning
pub mod Filling
use sant_os.Prelude.{
  ℕ, zero, suc, ◌+◌, ◌*◌, ◌/◌, ◌%◌, ◌^◌, Mem, store, Bool, true, false, ◌&&◌, ◌||◌, List, [], ◌∷◌,
  leb, ◌==◌, if◌then◌else◌, bit_and, nonzero,
}
use sant_os.Fat12.Table.{load16, store16}
use sant_os.Fat12.Name.{Name83}

-- The fields of `fat12_dir_entry_t` at `entries[idx]`.
abbrev pub entry_at : ℕ → ℕ
entry_at idx = idx * 32

unfoldable pub load32 : Mem → ℕ → ℕ
unfolding load16
load32 buf i = load16 buf i + 2 ^ 16 * load16 buf (i + 2)

unfoldable pub store32 : Mem → ℕ → ℕ → Mem
unfolding store16
store32 buf i v = store16 (store16 buf i v) (i + 2) (v / 2 ^ 16)

abbrev pub first_char : Mem → ℕ → ℕ
first_char buf idx = buf (entry_at idx)

abbrev pub attributes : Mem → ℕ → ℕ
attributes buf idx = buf (entry_at idx + 11)

abbrev pub first_cluster_low : Mem → ℕ → ℕ
first_cluster_low buf idx = load16 buf (entry_at idx + 26)

abbrev pub file_size : Mem → ℕ → ℕ
file_size buf idx = load32 buf (entry_at idx + 28)

-- `(uint8_t)entries[idx].filename[0] == 0xE5`
abbrev pub deleted_cast : ℕ → Bool
deleted_cast c = c == 0xE5

-- `entries[idx].filename[0] == 0xE5`: a `char` is signed, so a byte from 128 on is a negative
-- `int` here, which no positive constant equals.
abbrev pub deleted_char : ℕ → Bool
deleted_char c = if leb 128 c then false else c == 0xE5

-- A comparison loop over a field, left at the first difference.
unfoldable pub same_from : List ℕ → Mem → ℕ → Bool
same_from [] buf i = true
same_from (c ∷ s) buf i = if c == buf i then same_from s buf (i + 1) else false

unfoldable pub matches : Name83 → Mem → ℕ → Bool
unfolding same_from
matches name buf idx =
    same_from name.stem buf (entry_at idx) && same_from name.ext buf (entry_at idx + 8)

pub data Scan : Type 0 where
  found : ℕ → Scan
  ended : Scan
  next_sector : Scan

-- The loop over the entries of a sector, from `idx` on; `deleted` is the test that the caller
-- has for a deleted entry.
unfoldable pub scan_from : (ℕ → Bool) → Name83 → Mem → ℕ → ℕ → Scan
scan_from deleted name buf zero idx = next_sector
scan_from deleted name buf (suc left) idx =
    let rest = scan_from deleted name buf left (idx + 1) in
    if first_char buf idx == 0
    then ended
    else if deleted (first_char buf idx)
    then rest
    else if matches name buf idx
    then found idx
    else rest

unfoldable pub scan : (ℕ → Bool) → Name83 → Mem → Scan
unfolding scan_from
scan deleted name buf = scan_from deleted name buf 16 0

-- The loop of `fat12_create`: the first entry that is unused or deleted.
unfoldable pub free_entry_from : Mem → ℕ → ℕ → Scan
free_entry_from buf zero idx = next_sector
free_entry_from buf (suc left) idx =
    let rest = free_entry_from buf left (idx + 1) in
    if first_char buf idx == 0 || first_char buf idx == 0xE5 then found idx else rest

unfoldable pub free_entry : Mem → Scan
unfolding free_entry_from
free_entry buf = free_entry_from buf 16 0

-- `for (k) field[k] = chars[k];`
unfoldable pub put_chars : List ℕ → Mem → ℕ → Mem
put_chars [] buf i = buf
put_chars (c ∷ s) buf i = put_chars s (store buf i c) (i + 1)

-- The entry that `fat12_create` writes; the times and dates stay as they were.
unfoldable pub fill_entry : Name83 → ℕ → Mem → ℕ → Mem
unfolding put_chars store16 store32
fill_entry name cluster buf idx =
    let e = entry_at idx in
    let named = put_chars name.ext (put_chars name.stem buf e) (e + 8) in
    let kind = store (store named (e + 11) 0x20) (e + 12) 0 in
    store32 (store16 (store16 kind (e + 20) 0) (e + 26) cluster) (e + 28) 0
