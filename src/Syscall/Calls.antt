-- ===== src/Syscall/Calls.antt =====
-- `syscall_handler` of src/syscall.c.
use sant_os.Prelude.{
  ℕ, zero, suc, Mem, store, ◌||◌, not, Option, none, some, List, [], ◌∷◌, ◌==◌, if◌then◌else◌, u8,
  u16, u32,
}
use mathlib.Core.Option.{map}
use sant_os.Strings.{memcpy, memset, strlen, strcmp, strcpy, strcat}
use sant_os.Strings.Compare.{same}
use sant_os.Heap.{malloc, free, realloc, calloc}
use sant_os.Vga.{Vga, vga_putchar, vga_write, vga_clear, vga_set_color, vga_set_cursor_pos}
use sant_os.Fat12.Disk.{Disk}
use sant_os.Fat12.Files.{File, Driver, fat12_open}
use sant_os.Fat12.Data.{fat12_read}
use sant_os.Fat12.Listing.{fat12_list_root, fat12_list_dir, fat12_find_entry}
use sant_os.Loader.{has_magic, load_program}
use sant_os.Syscall.{
  minus_one, string_at, signed_word, get_cursor_pos, State, Result, getchar_call, heap_call,
  memory_call, value_call, list_call, find_call, read_file, create_file, write_file,
}

abbrev pub shell_upper : List ℕ
shell_upper = b'S' ∷ b'H' ∷ b'E' ∷ b'L' ∷ b'L' ∷ b'.' ∷ b'E' ∷ b'L' ∷ b'F' ∷ []

abbrev pub shell_lower : List ℕ
shell_lower = b's' ∷ b'h' ∷ b'e' ∷ b'l' ∷ b'l' ∷ b'.' ∷ b'e' ∷ b'l' ∷ b'f' ∷ []

-- `for (int i = 0; i < 2000; i++) dest[i] = src[i];`, of two arrays that do not overlap.
unfoldable pub copy_cells : ℕ → Mem → Mem → Mem
copy_cells zero dest src = dest
copy_cells (suc i) dest src = store (copy_cells i dest src) i (src i)

module _ (D : Disk) where
  unfoldable pub load_call : ℕ → State D → Driver D → List ℕ → Result D
  load_call fuel k fs filename =
      map (λ r. (record k { fs = r.0; heap = r.1 }, r.2)) (load_program D fuel fs k.heap filename)

  -- SYSCALL_EXEC_PROGRAM behind `fat12_read` of the header.
  unfoldable pub header_call : ℕ → State D → List ℕ → Driver D × Mem × Option ℕ → Result D
  header_call fuel k filename (fs, header, none) = some (record k { fs = fs }, 0)
  header_call fuel k filename (fs, header, some bytes) =
      let load = load_call fuel k fs filename in
      if not (bytes == 4)
      then some (record k { fs = fs }, 0)
      else if not (has_magic header 0)
      then some (record k { fs = fs }, 0)
      else load

  unfoldable pub open_call : ℕ → State D → List ℕ → Driver D × Option File → Result D
  open_call fuel k filename (fs, none) = some (record k { fs = fs }, 0)
  open_call fuel k filename (fs, some file) = elim (fat12_read D fuel fs file (λ i. 0) 4) [
    | none ↦ none
    | some r ↦ header_call fuel k filename r
  ]

  unfoldable pub exec_program : ℕ → State D → List ℕ → Result D
  exec_program fuel k filename =
      let load = open_call fuel k filename (fat12_open D k.fs filename) in
      if same filename shell_upper || same filename shell_lower then some (k, 0) else load

  unfoldable pub save_vga : (List (ℕ × ℕ) → ℕ → ℕ) → State D → State D
  save_vga inb k =
      let (v, x, y) = get_cursor_pos inb k.vga in
      record k {
        vga = v;
        vga_backup = copy_cells 2000 k.vga_backup k.vga.vga_buffer;
        saved_cursor_x = x;
        saved_cursor_y = y;
      }

  unfoldable pub restore_vga : State D → State D
  restore_vga k =
      let v : Vga = record k.vga { vga_buffer = copy_cells 2000 k.vga.vga_buffer k.vga_backup } in
      record k { vga = vga_set_cursor_pos k.saved_cursor_x k.saved_cursor_y v }

  -- A call whose argument is a string.
  unfoldable pub named_call : Option (List ℕ) → (List ℕ → Result D) → Result D
  named_call none call = none
  named_call (some s) call = call s

  -- The names of the C constants of the numbers are in include/syscall.h. What the listings print
  -- is left out. `printf("%s", ...)` writes the string.
  unfoldable pub syscall_handler :
      (List (ℕ × ℕ) → ℕ → ℕ) → ℕ → List ℕ → ℕ → ℕ → ℕ → ℕ → State D → Result D
  syscall_handler inb fuel scancodes num arg1 arg2 arg3 k =
      let m = k.heap.bytes in
      let name1 = string_at fuel m arg1 in
      let name2 = string_at fuel m arg2 in
      if num == 0
      then some (record k { vga = vga_putchar (u8 arg1) k.vga }, 0)
      else if num == 1
      then getchar_call D scancodes k
      else if num == 2
      then named_call name1 (λ s. some (record k { vga = vga_write s k.vga }, 0))
      else if num == 3
      then some (record k { vga = vga_clear k.vga }, 0)
      else if num == 4
      then some (record k { vga = vga_set_color (u8 arg1) (u8 arg2) k.vga }, 0)
      else if num == 5
      then some (record k { vga = vga_set_cursor_pos (u8 arg1) (u8 arg2) k.vga }, 0)
      else if num == 10
      then heap_call D k (malloc fuel k.heap arg1)
      else if num == 11
      then some (record k { heap = free k.heap arg1 }, 0)
      else if num == 12
      then heap_call D k (realloc fuel k.heap arg1 arg2)
      else if num == 13
      then heap_call D k (calloc fuel k.heap arg1 arg2)
      else if num == 20
      then value_call D k (strlen fuel m arg1)
      else if num == 21
      then value_call D k (map signed_word (strcmp fuel m arg1 arg2))
      else if num == 22
      then memory_call D k arg1 (strcpy fuel m arg1 arg2)
      else if num == 23
      then memory_call D k arg1 (strcat fuel fuel m arg1 arg2)
      else if num == 24
      then memory_call D k arg1 (some (memcpy arg1 arg2 arg3 m))
      else if num == 25
      then memory_call D k arg1 (some (memset arg1 (u32 arg2) arg3 m))
      else if num == 30
      then list_call D k (some ((fat12_list_root D k.fs).0, (fat12_list_root D k.fs).2))
      else if num == 31
      then list_call D k (map (λ r. (r.0, r.2)) (fat12_list_dir D fuel k.fs (u16 arg1)))
      else if num == 32
      then named_call name2
          (λ s. map (find_call D k arg3) (fat12_find_entry D fuel k.fs (u16 arg1) s))
      else if num == 33
      then named_call name1 (λ s. read_file D fuel k s arg2 (u32 arg3))
      else if num == 34
      then named_call name1 (λ s. some (create_file D k s))
      else if num == 35
      then named_call name1 (λ s. write_file D fuel k s arg2 (u32 arg3))
      else if num == 40
      then named_call name1 (λ s. exec_program fuel k s)
      else if num == 50
      then some (save_vga inb k, 0)
      else if num == 51
      then some (restore_vga k, 0)
      else some (k, minus_one)
