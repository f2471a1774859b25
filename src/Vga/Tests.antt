-- ===== src/Vga/Tests.antt =====
-- Tests of the model of src/vga.c, and the theorems at concrete inputs.
use sant_os.Prelude.{ℕ, ◌+◌, ◌*◌, store, [], ◌∷◌, ◌≡◌, arith, refl}
use sant_os.Vga.{
  Vga, vga_entry, outb, vga_clear, vga_scroll, put_cell, wrap_line, wrap_screen, vga_update_cursor,
  vga_putchar, vga_write, vga_set_cursor_pos, vga_set_color,
}
use sant_os.Vga.Cells.{blank, vga_clear_lem, vga_scroll_lem}
use sant_os.Vga.Cursor.{
  IsValid, Shows, vga_update_cursor-Shows, vga_putchar-IsValid, vga_write-IsValid,
  vga_set_cursor_pos-IsValid, scrolled, vga_putchar-printable,
}

-- A screen of numbered cells, with the cursor in the last one.
abbrev full : Vga
full = record {
  vga_buffer = λ i. i;
  cursor_x = 79;
  cursor_y = 24;
  current_color = 0x1E;
  ports = [];
}

full-IsValid : IsValid full
full-IsValid = record { column = omega arith; row = omega arith }

wrapped_line : (vga_write (b'h' ∷ 10 ∷ b'i' ∷ []) full).cursor_x ≡ 1
unfolding vga_write vga_putchar put_cell wrap_line wrap_screen vga_scroll vga_update_cursor outb
wrapped_line = refl

yellow_on_blue : (vga_set_color 14 1 full).current_color ≡ 0x1E
unfolding vga_set_color
yellow_on_blue = refl

vga_clear_lem_case :
    ((vga_clear full).vga_buffer 7 ≡ blank 0x1E)
    × ((vga_clear full).cursor_x ≡ 0)
    × ((vga_clear full).cursor_y ≡ 0)
vga_clear_lem_case = vga_clear_lem full 7

vga_scroll_lem_case : (vga_scroll full).vga_buffer 100 ≡ 180
vga_scroll_lem_case = vga_scroll_lem full 100

vga_update_cursor-Shows_case : Shows 1999 (vga_update_cursor full) []
vga_update_cursor-Shows_case = vga_update_cursor-Shows full full-IsValid

vga_putchar-IsValid_example : IsValid (vga_putchar 10 full)
vga_putchar-IsValid_example = vga_putchar-IsValid 10 full full-IsValid

vga_write-IsValid_case : IsValid (vga_write (72 ∷ 105 ∷ 10 ∷ 9 ∷ []) full)
vga_write-IsValid_case = vga_write-IsValid (72 ∷ 105 ∷ 10 ∷ 9 ∷ []) full full-IsValid

vga_set_cursor_pos-IsValid_case :
    IsValid (vga_set_cursor_pos 200 3 full)
    × ((vga_set_cursor_pos 200 3 full).cursor_x ≡ 79)
    × ((vga_set_cursor_pos 200 3 full).cursor_y ≡ 3)
vga_set_cursor_pos-IsValid_case = vga_set_cursor_pos-IsValid 200 3 full

vga_putchar-printable_example :
    let written = store full.vga_buffer 1999 (vga_entry 65 0x1E) in
    ((vga_putchar 65 full).cursor_y * 80 + (vga_putchar 65 full).cursor_x ≡ 1920)
    × ((k : ℕ) → (vga_putchar 65 full).vga_buffer k ≡ scrolled written k)
vga_putchar-printable_example =
    vga_putchar-printable 65 full full-IsValid (omega arith) (omega arith)
