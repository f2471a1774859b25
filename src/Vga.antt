-- ===== src/Vga.antt =====
-- The text console, src/vga.c: the character cells, the cursor, and the bytes sent to the ports.
pub mod Cells
pub mod Cursor
mod Tests
use sant_os.Prelude.{
  ℕ, zero, suc, ◌+◌, ◌-◌, ◌*◌, ◌/◌, ◌%◌, Mem, store, Bool, true, false, ◌&&◌, List, [], ◌∷◌, ltb,
  leb, ◌==◌, if◌then◌else◌, bit_and, bit_or, u8, u16,
}

abbrev pub width : ℕ
width = 80

abbrev pub height : ℕ
height = 25

-- The driver's variables, the cells at `vga_buffer`, and the bytes written to ports so far, the
-- last one first, each behind its port.
pub record Vga : Type 0 where
  pub vga_buffer : Mem
  pub cursor_x : ℕ
  pub cursor_y : ℕ
  pub current_color : ℕ
  pub ports : List (ℕ × ℕ)

unfoldable pub outb : ℕ → ℕ → Vga → Vga
outb port value v = record v { ports = (port, value) ∷ v.ports }

-- `vga_entry`, of a character below 128.
unfoldable pub vga_entry : ℕ → ℕ → ℕ
vga_entry c color = bit_or c (color * 256)

unfoldable pub vga_update_cursor : Vga → Vga
vga_update_cursor v =
    let pos = u16 (v.cursor_y * width + v.cursor_x) in
    outb 0x3D5 (u8 (bit_and (pos / 256) 0xFF))
      (outb 0x3D4 0x0E (outb 0x3D5 (u8 (bit_and pos 0xFF)) (outb 0x3D4 0x0F v)))

-- `for (x) vga_buffer[row + x] = entry;` for the `left` cells from `i` on.
unfoldable pub fill_cells : ℕ → ℕ → ℕ → Mem → Mem
fill_cells entry zero i m = m
fill_cells entry (suc left) i m = fill_cells entry left (i + 1) (store m i entry)

-- `for (x) vga_buffer[y * 80 + x] = vga_buffer[(y + 1) * 80 + x];`
unfoldable pub move_cells : ℕ → ℕ → Mem → Mem
move_cells zero i m = m
move_cells (suc left) i m = move_cells left (i + 1) (store m i (m (i + width)))

-- The loops over the rows around these.
unfoldable pub fill_rows : ℕ → ℕ → ℕ → Mem → Mem
fill_rows entry zero y m = m
fill_rows entry (suc left) y m = fill_rows entry left (y + 1) (fill_cells entry width (y * width) m)

unfoldable pub move_rows : ℕ → ℕ → Mem → Mem
move_rows zero y m = m
move_rows (suc left) y m = move_rows left (y + 1) (move_cells width (y * width) m)

unfoldable pub vga_clear : Vga → Vga
vga_clear v = record v {
  vga_buffer = fill_rows (vga_entry 32 v.current_color) height 0 v.vga_buffer;
  cursor_x = 0;
  cursor_y = 0;
}

unfoldable pub vga_set_color : ℕ → ℕ → Vga → Vga
vga_set_color fg bg v = record v { current_color = u8 (bit_or (bg * 16) (bit_and fg 0x0F)) }

unfoldable pub vga_scroll : Vga → Vga
vga_scroll v = record v {
  vga_buffer =
      fill_cells (vga_entry 32 0x0F) width ((height - 1) * width)
        (move_rows (height - 1) 0 v.vga_buffer);
  cursor_y = height - 1;
}

-- The first half of `vga_putchar`: what the character does. `& ~3` clears the two lowest bits.
unfoldable pub put_cell : ℕ → Vga → Vga
put_cell c v =
    let here = v.cursor_y * width + v.cursor_x in
    if c == 10
    then record v { cursor_x = 0; cursor_y = u8 (v.cursor_y + 1) }
    else if c == 13
    then record v { cursor_x = 0 }
    else if c == 8
    then (if ltb 0 v.cursor_x
        then record v {
          cursor_x = v.cursor_x - 1;
          vga_buffer = store v.vga_buffer (here - 1) (vga_entry 32 v.current_color);
        }
        else v)
    else if c == 0x1D
    then (if ltb 0 v.cursor_x then record v { cursor_x = v.cursor_x - 1 } else v)
    else if c == 9
    then record v { cursor_x = u8 ((v.cursor_x + 4) / 4 * 4) }
    else if leb 32 c && leb c 126
    then record v {
      vga_buffer = store v.vga_buffer here (vga_entry c v.current_color);
      cursor_x = u8 (v.cursor_x + 1);
    }
    else v

-- The second half: line wrap, and scrolling.
unfoldable pub wrap_line : Vga → Vga
wrap_line v =
    if leb width v.cursor_x then record v { cursor_x = 0; cursor_y = u8 (v.cursor_y + 1) } else v

unfoldable pub wrap_screen : Vga → Vga
wrap_screen v = if leb height v.cursor_y then vga_scroll v else v

unfoldable pub vga_putchar : ℕ → Vga → Vga
vga_putchar c v = vga_update_cursor (wrap_screen (wrap_line (put_cell c v)))

unfoldable pub vga_write : List ℕ → Vga → Vga
vga_write [] v = v
vga_write (c ∷ s) v = vga_write s (vga_putchar c v)

-- `x` and `y` are bytes.
unfoldable pub vga_set_cursor_pos : ℕ → ℕ → Vga → Vga
vga_set_cursor_pos x y v = vga_update_cursor (record v {
  cursor_x = if leb width x then width - 1 else x;
  cursor_y = if leb height y then height - 1 else y;
})

-- `inb` answers for the device, given what was written to it.
module _ (inb : List (ℕ × ℕ) → ℕ → ℕ) where
  unfoldable pub vga_enable_cursor : ℕ → ℕ → Vga → Vga
  vga_enable_cursor start stop v =
      let v1 = outb 0x3D4 0x0A v in
      let v2 = outb 0x3D5 (bit_or (bit_and (inb v1.ports 0x3D5) 0xC0) start) v1 in
      let v3 = outb 0x3D4 0x0B v2 in outb 0x3D5 (bit_or (bit_and (inb v3.ports 0x3D5) 0xE0) stop) v3

  unfoldable pub vga_init : Vga → Vga
  vga_init v = vga_update_cursor (
      vga_enable_cursor 0 15
        (vga_clear (record v { cursor_x = 0; cursor_y = 0; current_color = 0x0F })))

unfoldable pub vga_disable_cursor : Vga → Vga
vga_disable_cursor v = outb 0x3D5 0x20 (outb 0x3D4 0x0A v)
