-- ===== src/Vga/Cells.antt =====
-- The loops over the character cells in src/vga.c: clearing and scrolling the screen.
use sant_os.Prelude.{
  ℕ, zero, suc, ◌+◌, ◌*◌, ◌≤◌, Mem, store, ◌&&◌, ltb, leb, if◌then◌else◌, ◌≡◌, arith, refl,
}
use sant_os.Vga.{
  Vga, vga_entry, fill_cells, move_cells, fill_rows, move_rows, vga_clear, vga_scroll,
}

-- The blank cell of a colour.
abbrev pub blank : ℕ → ℕ
blank color = vga_entry 32 color

fill_cells_lem :
    (entry n i : ℕ) (m : Mem) (k : ℕ)
    → fill_cells entry n i m k ≡ (if leb i k && ltb k (i + n) then entry else m k)
unfolding fill_cells store
fill_cells_lem entry zero i m k = ground arith
fill_cells_lem entry (suc n) i m k =
    ground (arith, fill_cells_lem entry n (i + 1) (store m i entry) k)

move_cells_lem :
    (n i : ℕ) (m : Mem) (k : ℕ)
    → n ≤ 80
    → move_cells n i m k ≡ (if leb i k && ltb k (i + n) then m (k + 80) else m k)
unfolding move_cells store
move_cells_lem zero i m k h = ground arith
move_cells_lem (suc n) i m k h =
    ground (arith, move_cells_lem n (i + 1) (store m i (m (i + 80))) k (omega arith))

fill_rows_lem :
    (entry n y : ℕ) (m : Mem) (k : ℕ)
    → fill_rows entry n y m k ≡ (if leb (y * 80) k && ltb k ((y + n) * 80) then entry else m k)
unfolding fill_rows
fill_rows_lem entry zero y m k = ground arith
fill_rows_lem entry (suc n) y m k = ground (
  arith,
  fill_rows_lem entry n (y + 1) (fill_cells entry 80 (y * 80) m) k,
  fill_cells_lem entry 80 (y * 80) m k,
)

move_rows_lem :
    (n y : ℕ) (m : Mem) (k : ℕ)
    → move_rows n y m k ≡ (if leb (y * 80) k && ltb k ((y + n) * 80) then m (k + 80) else m k)
unfolding move_rows
move_rows_lem zero y m k = ground arith
move_rows_lem (suc n) y m k =
    let m' = move_cells 80 (y * 80) m in
    ground (
      arith,
      move_rows_lem n (y + 1) m' k,
      move_cells_lem 80 (y * 80) m k (omega arith),
      move_cells_lem 80 (y * 80) m (k + 80) (omega arith),
    )

-- `vga_clear` writes the blank of the current colour into the 2000 cells of the screen and into
-- no other, and puts the cursor into the upper left corner.
pub vga_clear_lem :
    (v : Vga) (k : ℕ)
    → ((vga_clear v).vga_buffer k ≡ (if ltb k 2000 then blank v.current_color else v.vga_buffer k))
      × ((vga_clear v).cursor_x ≡ 0)
      × ((vga_clear v).cursor_y ≡ 0)
unfolding vga_clear
vga_clear_lem v k =
    (ground (arith, fill_rows_lem (blank v.current_color) 25 0 v.vga_buffer k), refl, refl)

-- `vga_scroll` moves each row up by one, from the second row on; the last row becomes blank in
-- white on black, and no cell behind the screen changes.
pub vga_scroll_lem :
    (v : Vga) (k : ℕ)
    → (vga_scroll v).vga_buffer k ≡ (
        if ltb k 1920
        then v.vga_buffer (k + 80)
        else if ltb k 2000
        then blank 0x0F
        else v.vga_buffer k)
unfolding vga_scroll
vga_scroll_lem v k = ground (
  arith,
  fill_cells_lem (blank 0x0F) 80 1920 (move_rows 24 0 v.vga_buffer) k,
  move_rows_lem 24 0 v.vga_buffer k,
)
