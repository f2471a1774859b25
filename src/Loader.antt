-- ===== src/Loader.antt =====
-- The program loader, src/loader.c, over the FAT12 driver and the heap, whose bytes are the memory
-- that the segments go to. The two loops of a segment read its header once. An outer `none` is a
-- loop that has used up its fuel, and the entry point 0 is a failure.
pub mod Segments
mod Tests
use sant_os.Prelude.{
  ℕ, zero, suc, ◌+◌, ◌-◌, ◌*◌, ◌/◌, Mem, Bool, true, false, ◌&&◌, not, Option, none, some, List,
  ◌==◌, leb, ltb, ◌^◌, if◌then◌else◌, u32,
}
use mathlib.Core.Option.{map}
use sant_os.Strings.{copy_up, set_up}
use sant_os.Heap.{Heap, malloc, free}
use sant_os.Fat12.Disk.{Disk}
use sant_os.Fat12.Files.{File, Driver, fat12_open}
use sant_os.Fat12.Data.{fat12_read}

-- A field of `n` bytes, the lowest byte first.
unfoldable pub field : ℕ → Mem → ℕ → ℕ
field zero m a = 0
field (suc n) m a = m a + field n m (a + 1) * 256

-- The program header at an address.
pub record ProgramHeader : Type 0 where
  pub p_type : ℕ
  pub p_offset : ℕ
  pub p_vaddr : ℕ
  pub p_filesz : ℕ
  pub p_memsz : ℕ

unfoldable pub program_header : Mem → ℕ → ProgramHeader
program_header m ph = record {
  p_type = field 4 m ph;
  p_offset = field 8 m (ph + 8);
  p_vaddr = field 8 m (ph + 16);
  p_filesz = field 8 m (ph + 32);
  p_memsz = field 8 m (ph + 40);
}

unfoldable pub load_segment : ℕ → ProgramHeader → Mem → Mem
load_segment elf_buffer h m =
    if h.p_type == 1
    then set_up h.p_vaddr 0 (h.p_memsz - h.p_filesz) h.p_filesz
        (copy_up h.p_vaddr (elf_buffer + h.p_offset) h.p_filesz 0 m)
    else m

-- The loop over the program headers from `ph` on, of which `left` are left.
unfoldable pub load_segments : ℕ → ℕ → ℕ → Mem → Mem
load_segments elf_buffer zero ph m = m
load_segments elf_buffer (suc left) ph m =
    load_segments elf_buffer left (ph + 56) (load_segment elf_buffer (program_header m ph) m)

unfoldable pub has_magic : Mem → ℕ → Bool
has_magic m elf_buffer =
    (m elf_buffer == 0x7F)
    && ((m (elf_buffer + 1) == b'E')
        && ((m (elf_buffer + 2) == b'L') && (m (elf_buffer + 3) == b'F')))

-- The memory and the entry point, once the file is in the buffer.
unfoldable pub load_elf : ℕ → Mem → Mem × ℕ
load_elf elf_buffer m =
    if has_magic m elf_buffer
    then (
      load_segments elf_buffer (field 2 m (elf_buffer + 56))
          (elf_buffer + field 8 m (elf_buffer + 32)) m,
      field 8 m (elf_buffer + 24),
    )
    else (m, 0)

-- The buffer that `fat12_read` has filled, at its address.
abbrev pub at_address : Mem → ℕ → Mem → Mem
at_address m elf_buffer buffer a = if leb elf_buffer a then buffer (a - elf_buffer) else m a

module _ (D : Disk) where
  abbrev pub Loaded : Type 0
  Loaded = Driver D × Heap × ℕ

  -- Behind `fat12_read`, with the buffer, and the count of bytes where it has not failed. From 2 ^ 31
  -- on the count is a negative `int`.
  unfoldable pub loaded_from : Driver D → Heap → ℕ → ℕ → Mem → Option ℕ → Loaded
  loaded_from fs heap size elf_buffer buffer none =
      let filled : Heap = record heap { bytes = at_address heap.bytes elf_buffer buffer } in
      (fs, free filled elf_buffer, 0)
  loaded_from fs heap size elf_buffer buffer (some bytes_read) =
      let filled = at_address heap.bytes elf_buffer buffer in
      let (m, entry_point) = load_elf elf_buffer filled in
      if ltb bytes_read (2 ^ 31) && (bytes_read == size)
      then (fs, free (record heap { bytes = m }) elf_buffer, entry_point)
      else (fs, free (record heap { bytes = filled }) elf_buffer, 0)

  -- Behind `malloc`, which has returned the buffer.
  unfoldable pub read_elf : ℕ → Driver D → Heap → File → ℕ → Option Loaded
  read_elf fuel fs heap file elf_buffer =
      map (λ r. loaded_from r.0 heap file.size elf_buffer r.1 r.2)
        (fat12_read D fuel fs file (λ i. heap.bytes (elf_buffer + i)) file.size)

  unfoldable pub load_file : ℕ → Driver D → Heap → File → Option Loaded
  load_file fuel fs heap file = elim (malloc fuel heap (u32 (file.size + 511) / 512 * 512)) [
    | none ↦ none
    | some r ↦
        let rest = read_elf fuel fs r.0 file r.1 in if r.1 == 0 then some (fs, r.0, 0) else rest
  ]

  unfoldable pub load_program : ℕ → Driver D → Heap → List ℕ → Option Loaded
  load_program fuel fs heap filename =
      let (fs', opened) = fat12_open D fs filename in
      elim opened [ none ↦ some (fs', heap, 0) | some file ↦ load_file fuel fs' heap file ]
