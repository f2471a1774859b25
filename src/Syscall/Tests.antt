-- ===== src/Syscall/Tests.antt =====
-- Tests of the model of src/syscall.c, and the theorems at concrete inputs.
use sant_os.Prelude.{
  ℕ, Mem, store, true, false, some, ltb, ◌==◌, if◌then◌else◌, List, [], ◌∷◌, ◌≡◌, refl, arith,
}
use sant_os.Vga.{vga_putchar}
use sant_os.Fat12.Disk.{Disk}
use sant_os.Syscall.{minus_one, State, value_call, read_file}
use sant_os.Syscall.Calls.{syscall_handler, save_vga}
use sant_os.Syscall.Screen.{
  selected, register, IsController, IsShown, restore-save, call, call_unknown,
}
use sant_os.Syscall.Files.{Fits, read_file-Fits}
use sant_os.Strings.{strlen, strlen_from}

-- The root directory is one sector with the file A, of 512 bytes in cluster 2.
abbrev directory : Mem
directory i =
    if i == 0
    then b'A'
    else if ltb i 11
    then b' '
    else if i == 26
    then 2
    else if i == 29
    then 2
    else 0

abbrev numbers : Disk
numbers = record {
  Drive = Unit {0};
  read_sectors = λ d lba n. (d, some (if lba == 19 then directory else λ i. lba));
  write_sectors = λ d lba n buf. (d, true);
}

abbrev crtc : List (ℕ × ℕ) → ℕ → ℕ
crtc ports port = register ports (selected ports)

crtc-IsController : IsController crtc
crtc-IsController = record { reads = λ ports. refl }

-- The cursor is at the third column of the second row, and is shown there.
abbrev running : State numbers
running = record {
  vga = record {
    vga_buffer = λ i. i;
    cursor_x = 2;
    cursor_y = 1;
    current_color = 7;
    ports = (0x3D5, 0) ∷ (0x3D4, 0x0E) ∷ (0x3D5, 82) ∷ (0x3D4, 0x0F) ∷ [];
  };
  keyboard = record {
    keyboard_buffer = λ i. 0;
    buffer_read = 0;
    buffer_write = 0;
    shift_pressed = false;
    ctrl_pressed = false;
    e0_prefix = false;
  };
  heap = record {
    size = λ a. 0;
    next = λ a. 0;
    magic = λ a. 0;
    bytes = store (λ i. 0) 100 b'x';
    heap_start = 0;
    heap_size = 0;
    free_list = 0;
  };
  fs = record {
    boot_sector = record {
      bytes_per_sector = 512;
      sectors_per_cluster = 1;
      reserved_sectors = 1;
      num_fats = 2;
      root_entries = 16;
      sectors_per_fat = 9;
    };
    fat_start_sector = 1;
    root_dir_start_sector = 19;
    data_start_sector = 20;
    fat_buffer = λ i. 0;
    drive = tt;
  };
  vga_backup = λ i. 0;
  saved_cursor_x = 0;
  saved_cursor_y = 0;
}

running-IsShown : IsShown running.vga
running-IsShown = record {
  on_screen = record { column = omega arith; row = omega arith };
  before = [];
  shows = refl;
}

-- The screen has been saved, and something has been typed.
abbrev later : State numbers
later = record (save_vga numbers crtc running) { vga = vga_putchar b'!' running.vga }

one_character : call numbers crtc 10 [] 100 0 0 20 running ≡ some (running, 1)
unfolding syscall_handler value_call strlen strlen_from store
one_character = refl

restore-save_example :
    (k' : State numbers) × (call numbers crtc 0 [] 0 0 0 50 running
      ≡ some (save_vga numbers crtc running, 0))
    × (call numbers crtc 0 [] 0 0 0 51 later ≡ some (k', 0))
    × (k'.vga.vga_buffer 82 ≡ 82)
    × (k'.vga.cursor_x ≡ 2)
    × (k'.vga.cursor_y ≡ 1)
    × IsShown k'.vga
restore-save_example =
    restore-save numbers crtc 0 [] 0 0 0 running later 82 crtc-IsController running-IsShown
      (record { backup = refl; x = refl; y = refl }) (omega arith)

call_unknown_case : call numbers crtc 0 [] 0 0 0 60 running ≡ some (running, minus_one)
call_unknown_case = call_unknown numbers crtc 0 [] 0 0 0 60 running (omega arith)

read_file-Fits_case :
    (r : State numbers × ℕ) × (read_file numbers 1000 running (b'a' ∷ []) 4096 512 ≡ some r)
    × Fits numbers 512 r
read_file-Fits_case =
    read_file-Fits numbers 1000 running (b'a' ∷ []) 4096 512 (omega arith) (omega arith)
      (omega arith)
