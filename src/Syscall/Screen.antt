-- ===== src/Syscall/Screen.antt =====
-- Saving and restoring the screen by the system calls of src/syscall.c.
use sant_os.Prelude.{
  ℕ, zero, suc, ◌+◌, ◌*◌, ◌/◌, ◌^◌, ◌%◌, ◌<◌, ◌≤◌, Mem, store, true, ◌&&◌, some, List, [], ◌∷◌,
  ◌==◌, if◌then◌else◌, leb, ltb, bit_or, ◌≡◌, refl, arith, ap, ◌∙◌,
}
use sant_os.Prelude.Bits.{or_comm, or_fields}
use sant_os.Vga.{Vga, outb, vga_update_cursor, vga_set_cursor_pos}
use sant_os.Vga.Cursor.{IsValid, Shows, vga_update_cursor-Shows}
use sant_os.Fat12.Disk.{Disk}
use sant_os.Syscall.{minus_one, get_cursor_pos, State, Result}
use sant_os.Syscall.Calls.{copy_cells, save_vga, restore_vga, syscall_handler}

-- The register of the display controller that was last selected, and what was last written to a
-- register, in what has been put out so far.
abbrev pub selected : List (ℕ × ℕ) → ℕ
selected [] = 0
selected ((port, value) ∷ before) = if port == 0x3D4 then value else selected before

abbrev pub register : List (ℕ × ℕ) → ℕ → ℕ
register [] r = 0
register ((port, value) ∷ before) r =
    if (port == 0x3D5) && (selected before == r) then value else register before r

-- What the controller is documented to do: a register reads as it was last written.
pub record IsController (inb : List (ℕ × ℕ) → ℕ → ℕ) : Type 0 where
  pub reads : (ports : List (ℕ × ℕ)) → inb ports 0x3D5 ≡ register ports (selected ports)

copy_cells_lem :
    (n : ℕ) (dest src : Mem) (i : ℕ) → copy_cells n dest src i ≡ (if ltb i n then src i else dest i)
unfolding copy_cells store
copy_cells_lem zero dest src i = ground arith
copy_cells_lem (suc n) dest src i = ground (arith, copy_cells_lem n dest src i)

-- The hardware cursor shows where the driver's cursor is.
pub record IsShown (v : Vga) : Type 0 where
  pub on_screen : IsValid v
  pub before : List (ℕ × ℕ)
  pub shows : Shows (v.cursor_y * 80 + v.cursor_x) v before

get_cursor_pos_lem :
    (inb : List (ℕ × ℕ) → ℕ → ℕ) (v : Vga)
    → IsController inb
    → IsShown v
    → ((get_cursor_pos inb v).1 ≡ v.cursor_x) × ((get_cursor_pos inb v).2 ≡ v.cursor_y)
unfolding get_cursor_pos outb
get_cursor_pos_lem inb v ctl shown =
    let x = shown.on_screen.column in
    let y = shown.on_screen.row in
    let pos = v.cursor_y * 80 + v.cursor_x in
    let low = ctl.reads ((0x3D4, 0x0F) ∷ v.ports) in
    let high = ctl.reads ((0x3D4, 0x0E) ∷ (0x3D4, 0x0F) ∷ v.ports) in
    let low' : inb ((0x3D4, 0x0F) ∷ v.ports) 0x3D5 ≡ pos % 256 = low ∙ rw (shown.shows) refl in
    let high' : inb ((0x3D4, 0x0E) ∷ (0x3D4, 0x0F) ∷ v.ports) 0x3D5 ≡ pos / 256 =
      high ∙ rw (shown.shows) refl in
    let word : pos / 256 * 2 ^ 8 % 2 ^ 16 ≡ pos / 256 * 2 ^ 8 = omega arith in
    let sum : bit_or (pos % 256) (pos / 256 * 2 ^ 8) ≡ pos =
      or_comm (pos % 256) (pos / 256 * 2 ^ 8)
      ∙ or_fields 8 (pos / 256) (pos % 256) (omega arith)
      ∙ omega arith in
    rw (low', high', word, sum) (omega arith, omega arith)

-- Setting the cursor shows it.
set_cursor-IsShown : (x y : ℕ) (v : Vga) → IsShown (vga_set_cursor_pos x y v)
unfolding vga_set_cursor_pos vga_update_cursor outb
set_cursor-IsShown x y v =
    let v' : Vga = record v {
      cursor_x = if leb 80 x then 79 else x;
      cursor_y = if leb 25 y then 24 else y;
    } in
    let valid : IsValid v' = record { column = ground arith; row = ground arith } in
    record {
      on_screen = record { column = valid.column; row = valid.row };
      before = v.ports;
      shows = vga_update_cursor-Shows v' valid;
    }

module _ (D : Disk) (inb : List (ℕ × ℕ) → ℕ → ℕ) (fuel : ℕ) (scancodes : List ℕ)
    (arg1 arg2 arg3 : ℕ) where
  abbrev pub call : ℕ → State D → Result D
  call num k = syscall_handler D inb fuel scancodes num arg1 arg2 arg3 k

  -- What the two variables of a saved screen are, in a later state.
  pub record Keeps (k later : State D) : Type 0 where
    pub backup : later.vga_backup ≡ (save_vga D inb k).vga_backup
    pub x : later.saved_cursor_x ≡ (save_vga D inb k).saved_cursor_x
    pub y : later.saved_cursor_y ≡ (save_vga D inb k).saved_cursor_y

  -- SYSCALL_SAVE_VGA saves the screen and the cursor, which it reads from the hardware, and
  -- SYSCALL_RESTORE_VGA gives them back: in any later state in which nothing else has been saved,
  -- whatever the screen then is, each of the 2000 cells is as it was, and so is the cursor, where the
  -- hardware then shows it too. The cursor was shown when the screen was saved.
  pub restore-save :
      (k later : State D) (i : ℕ)
      → IsController inb
      → IsShown k.vga
      → Keeps k later
      → i < 2000
      → (k' : State D) × (call 50 k ≡ some (save_vga D inb k, 0))
        × (call 51 later ≡ some (k', 0))
        × (k'.vga.vga_buffer i ≡ k.vga.vga_buffer i)
        × (k'.vga.cursor_x ≡ k.vga.cursor_x)
        × (k'.vga.cursor_y ≡ k.vga.cursor_y)
        × IsShown k'.vga
  unfolding syscall_handler restore_vga save_vga vga_set_cursor_pos vga_update_cursor outb
  restore-save k later i ctl shown keeps inside =
      let (same_x, same_y) = get_cursor_pos_lem inb k.vga ctl shown in
      let x = shown.on_screen.column in
      let y = shown.on_screen.row in
      let saved_x = keeps.x ∙ same_x in
      let saved_y = keeps.y ∙ same_y in
      let below : ltb i 2000 ≡ true = ground arith in
      let restored = copy_cells_lem 2000 later.vga.vga_buffer later.vga_backup i in
      let saved = copy_cells_lem 2000 k.vga_backup k.vga.vga_buffer i in
      let screen : Vga = record later.vga {
        vga_buffer = copy_cells 2000 later.vga.vga_buffer later.vga_backup;
      } in
      (
        restore_vga D later,
        refl,
        refl,
        rw below at restored ∙ ap (λ (m : Mem). m i) keeps.backup ∙ (rw below at saved),
        rw saved_x (ground arith),
        rw saved_y (ground arith),
        set_cursor-IsShown later.saved_cursor_x later.saved_cursor_y screen,
      )

  -- A number that is no call returns -1 and changes nothing.
  pub call_unknown : (num : ℕ) (k : State D) → 52 ≤ num → call num k ≡ some (k, minus_one)
  unfolding syscall_handler
  call_unknown num k h = ground arith
