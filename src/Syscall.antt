-- ===== src/Syscall.antt =====
-- The system calls, src/syscall.c, over the components that they call. A pointer of the caller is
-- an address in the bytes of the heap. `none` is a call that waits for a key, or a loop that has
-- used up its fuel; a result is a word of 64 bits.
pub mod Screen
pub mod Calls
pub mod Files
mod Tests
use sant_os.Prelude.{
  ℕ, zero, suc, ◌+◌, ◌-◌, ◌*◌, ◌/◌, ◌%◌, ◌^◌, Mem, store, Bool, true, false, ◌&&◌, ◌||◌, not,
  Option, none, some, List, [], ◌∷◌, ◌==◌, ltb, leb, if◌then◌else◌, bit_or, u8, u16, u32, u64,
}
use mathlib.Core.Option.{map}
use sant_os.Prelude.Int.{ℤ, pos, negsuc}
use sant_os.Strings.{copy_up, memcpy, memset, strlen, strcmp, strcpy, strcat}
use sant_os.Strings.Compare.{same}
use sant_os.Heap.{Heap, malloc, free, realloc, calloc}
use sant_os.Keyboard.{Keyboard, keyboard_getchar}
use sant_os.Vga.{Vga, outb, vga_putchar, vga_write, vga_clear, vga_set_color, vga_set_cursor_pos}
use sant_os.Fat12.Disk.{Disk}
use sant_os.Fat12.Dir.{store32}
use sant_os.Fat12.Files.{File, Driver, fat12_open, fat12_create, fat12_update_size}
use sant_os.Fat12.Data.{fat12_read, fat12_write}
use sant_os.Fat12.Listing.{fat12_list_root, fat12_list_dir, fat12_find_entry}
use sant_os.Loader.{at_address, load_program}

abbrev pub minus_one : ℕ
minus_one = 2 ^ 64 - 1

-- A C string at an address.
unfoldable pub string_at : ℕ → Mem → ℕ → Option (List ℕ)
string_at zero m a = none
string_at (suc fuel) m a =
    let rest = map (λ s. m a ∷ s) (string_at fuel m (a + 1)) in if m a == 0 then some [] else rest

-- `(uint64_t)(int64_t)` of an `int`.
unfoldable pub signed_word : ℤ → ℕ
signed_word (pos n) = n
signed_word (negsuc n) = 2 ^ 64 - 1 - n

-- The components and the variables of the file.
pub record Kernel (Fs : Type 0) : Type 0 where
  pub vga : Vga
  pub keyboard : Keyboard
  pub heap : Heap
  pub fs : Fs
  pub vga_backup : Mem
  pub saved_cursor_x : ℕ
  pub saved_cursor_y : ℕ

-- `inb_vga` answers for the device, given what was written to it.
unfoldable pub get_cursor_pos : (List (ℕ × ℕ) → ℕ → ℕ) → Vga → Vga × ℕ × ℕ
get_cursor_pos inb v =
    let v1 = outb 0x3D4 0x0F v in
    let low = inb v1.ports 0x3D5 in
    let v2 = outb 0x3D4 0x0E v1 in
    let pos = bit_or low (u16 (inb v2.ports 0x3D5 * 2 ^ 8)) in (v2, u8 (pos % 80), u8 (pos / 80))

module _ (D : Disk) where
  abbrev pub State : Type 0
  State = Kernel (Driver D)

  abbrev pub Result : Type 0
  Result = Option (State × ℕ)

  abbrev pub with_memory : State → Mem → State
  with_memory k m = record k { heap = record k.heap { bytes = m } }

  -- SYSCALL_GETCHAR, with the scan codes of the interrupts that come while it waits.
  unfoldable pub getchar_call : List ℕ → State → Result
  getchar_call scancodes k =
      map (λ r. (record k { keyboard = r.0 }, r.1)) (keyboard_getchar scancodes k.keyboard)

  -- The calls that return what the heap returns.
  unfoldable pub heap_call : State → Option (Heap × ℕ) → Result
  heap_call k r = map (λ h. (record k { heap = h.0 }, h.1)) r

  -- The calls that change the memory and return their first argument.
  unfoldable pub memory_call : State → ℕ → Option Mem → Result
  memory_call k arg1 r = map (λ m. (with_memory k m, arg1)) r

  unfoldable pub value_call : State → Option ℕ → Result
  value_call k r = map (λ n. (k, n)) r

  unfoldable pub list_call : State → Option (Driver D × Bool) → Result
  list_call k r = map (λ f. (record k { fs = f.0 }, if f.1 then 0 else minus_one)) r

  -- SYSCALL_FIND_ENTRY, which stores whether the entry is a directory.
  unfoldable pub find_call : State → ℕ → Driver D × (ℕ × Option Bool) → State × ℕ
  find_call k is_dir (fs, (cluster, none)) = (record k { fs = fs }, cluster)
  find_call k is_dir (fs, (cluster, some directory)) =
      let k' : State = record k { fs = fs } in
      (with_memory k' (store32 k.heap.bytes is_dir (if directory then 1 else 0)), cluster)

  -- The end of SYSCALL_READ_FILE, behind `fat12_read`, whose count is negative as an `int` from 2 ^ 31
  -- on.
  unfoldable pub read_call : State → ℕ → Driver D × Mem × Option ℕ → State × ℕ
  read_call k buf (fs, buffer, none) =
      let k' : State = record k { fs = fs } in
      (with_memory k' (at_address k.heap.bytes buf buffer), minus_one)
  read_call k buf (fs, buffer, some bytes) =
      let k' : State = record k { fs = fs } in
      (
        with_memory k' (at_address k.heap.bytes buf buffer),
        if ltb bytes (2 ^ 31) then bytes else minus_one,
      )

  unfoldable pub read_file : ℕ → State → List ℕ → ℕ → ℕ → Result
  read_file fuel k fname buf buf_size =
      let (fs, opened) = fat12_open D k.fs fname in
      elim opened [
        | none ↦ some (record k { fs = fs }, minus_one)
        | some file ↦
            let to_read = if ltb file.size buf_size then file.size else buf_size in
            map (read_call k buf) (fat12_read D fuel fs file (λ i. k.heap.bytes (buf + i)) to_read)
      ]

  unfoldable pub create_file : State → List ℕ → State × ℕ
  create_file k fname =
      let (fs, made) = fat12_create D k.fs fname in
      (record k { fs = fs }, elim made [ none ↦ minus_one | some file ↦ 0 ])

  -- The end of SYSCALL_WRITE_FILE, behind `fat12_write`: `bytes > 0` of an `int`.
  unfoldable pub size_call : State → List ℕ → Driver D × Option ℕ → State × ℕ
  size_call k fname (fs, none) = (record k { fs = fs }, 0)
  size_call k fname (fs, some bytes) =
      let (fs', updated) = fat12_update_size D fs fname bytes in
      if (bytes == 0) || leb (2 ^ 31) bytes
      then (record k { fs = fs }, 0)
      else if updated
      then (record k { fs = fs' }, bytes)
      else (record k { fs = fs' }, 0)

  unfoldable pub write_opened : ℕ → State → List ℕ → ℕ → ℕ → Driver D → Option File → Result
  write_opened fuel k fname buf size fs none = some (record k { fs = fs }, 0)
  write_opened fuel k fname buf size fs (some file) =
      map (size_call k fname) (fat12_write D fuel fs file (λ i. k.heap.bytes (buf + i)) size)

  unfoldable pub write_file : ℕ → State → List ℕ → ℕ → ℕ → Result
  write_file fuel k fname buf size =
      let (fs, opened) = fat12_open D k.fs fname in
      let (fs', made) = fat12_create D fs fname in
      elim opened [
        | some file ↦ write_opened fuel k fname buf size fs (some file)
        | none ↦ write_opened fuel k fname buf size fs' made
      ]
