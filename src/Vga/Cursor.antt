-- ===== src/Vga/Cursor.antt =====
-- The cursor in src/vga.c stays on the screen, and the hardware cursor stands where it does.
use sant_os.Prelude.{
  ℕ, ◌+◌, ◌*◌, ◌/◌, ◌%◌, ◌<◌, ◌≤◌, Mem, store, true, false, List, [], ◌∷◌, ltb, leb, ◌==◌,
  if◌then◌else◌, ◌≡◌, arith, refl, bit_and, Bool-cases, inl, inr,
}
use Prim.Native.Nat.{min}
use sant_os.Prelude.Bits.{and_ones}
use sant_os.Vga.{
  Vga, vga_entry, put_cell, wrap_line, wrap_screen, vga_scroll, vga_update_cursor, vga_putchar,
  vga_write, vga_set_cursor_pos, outb,
}
use sant_os.Vga.Cells.{blank, vga_scroll_lem}

pub record IsValid (v : Vga) : Type 0 where
  pub column : v.cursor_x < 80
  pub row : v.cursor_y < 25

-- The four bytes that put the hardware cursor at the cell `pos`.
abbrev pub Shows : ℕ → Vga → List (ℕ × ℕ) → Type 0
Shows pos v before =
    v.ports ≡ (0x3D5, pos / 256) ∷ (0x3D4, 0x0E) ∷ (0x3D5, pos % 256) ∷ (0x3D4, 0x0F) ∷ before

-- From a cursor on the screen, `vga_update_cursor` sends the number of the cursor's cell, its low
-- byte to register 0x0F and its high byte to register 0x0E.
pub vga_update_cursor-Shows :
    (v : Vga) → IsValid v → Shows (v.cursor_y * 80 + v.cursor_x) (vga_update_cursor v) v.ports
unfolding vga_update_cursor outb
vga_update_cursor-Shows v on =
    let pos = v.cursor_y * 80 + v.cursor_x in
    let col = on.column in
    let row = on.row in
    let small : pos % 65536 ≡ pos = omega arith in
    let low : bit_and pos 255 % 256 ≡ pos % 256 = omega (arith, and_ones 8 pos) in
    let high : bit_and (pos / 256) 255 % 256 ≡ pos / 256 = omega (arith, and_ones 8 (pos / 256)) in
    rw (small, low, high)

update_keeps :
    (v : Vga)
    → ((vga_update_cursor v).vga_buffer ≡ v.vga_buffer)
      × ((vga_update_cursor v).cursor_x ≡ v.cursor_x)
      × ((vga_update_cursor v).cursor_y ≡ v.cursor_y)
unfolding vga_update_cursor outb
update_keeps v = (refl, refl, refl)

-- Where the cursor may be after a character, before the line is wrapped.
record IsNear (v : Vga) : Type 0 where
  column : v.cursor_x ≤ 80
  row : v.cursor_y ≤ 25
  one : (v.cursor_x ≡ 80) → v.cursor_y ≤ 24

put_cell-IsNear : (c : ℕ) (v : Vga) → IsValid v → IsNear (put_cell c v)
unfolding put_cell
put_cell-IsNear c v on = let col = on.column in let row = on.row in ground arith

wrap_line_lem : (v : Vga) → IsNear v → ((wrap_line v).cursor_x < 80) × ((wrap_line v).cursor_y ≤ 25)
unfolding wrap_line
wrap_line_lem v near =
    let col = near.column in let row = near.row in let one = near.one in ground arith

wrap_screen_lem : (v : Vga) → v.cursor_x < 80 → v.cursor_y ≤ 25 → IsValid (wrap_screen v)
unfolding wrap_screen vga_scroll
wrap_screen_lem v col row = ground arith

update-IsValid : (v : Vga) → IsValid v → IsValid (vga_update_cursor v)
unfolding vga_update_cursor outb
update-IsValid v on = record { column = on.column; row = on.row }

-- From a cursor on the screen, `vga_putchar` leaves the cursor on the screen, whatever the
-- character.
pub vga_putchar-IsValid : (c : ℕ) (v : Vga) → IsValid v → IsValid (vga_putchar c v)
unfolding vga_putchar
vga_putchar-IsValid c v on =
    let (col, row) = wrap_line_lem (put_cell c v) (put_cell-IsNear c v on) in
    let v' = wrap_line (put_cell c v) in
    update-IsValid (wrap_screen v') (wrap_screen_lem v' col row)

-- So does writing a string.
pub vga_write-IsValid : (s : List ℕ) (v : Vga) → IsValid v → IsValid (vga_write s v)
unfolding vga_write
vga_write-IsValid [] v on = on
vga_write-IsValid (c ∷ s) v on = vga_write-IsValid s (vga_putchar c v) (vga_putchar-IsValid c v on)

-- `vga_set_cursor_pos` puts the cursor at the nearest place on the screen, from any two bytes.
pub vga_set_cursor_pos-IsValid :
    (x y : ℕ) (v : Vga)
    → IsValid (vga_set_cursor_pos x y v)
      × ((vga_set_cursor_pos x y v).cursor_x ≡ min x 79)
      × ((vga_set_cursor_pos x y v).cursor_y ≡ min y 24)
unfolding vga_set_cursor_pos vga_update_cursor outb
vga_set_cursor_pos-IsValid x y v =
    (record { column = ground arith; row = ground arith }, ground arith, ground arith)

-- The screen after the scrolling of `m`.
abbrev pub scrolled : Mem → ℕ → ℕ
scrolled m k = if ltb k 1920 then m (k + 80) else if ltb k 2000 then blank 0x0F else m k

typed :
    (c : ℕ) (v : Vga)
    → 32 ≤ c
    → c ≤ 126
    → v.cursor_x < 80
    → put_cell c v ≡ record v {
      vga_buffer = store v.vga_buffer (v.cursor_y * 80 + v.cursor_x) (vga_entry c v.current_color);
      cursor_x = v.cursor_x + 1;
    }
unfolding put_cell
typed c v lo hi col =
    let small : (v.cursor_x + 1) % 256 ≡ v.cursor_x + 1 = omega arith in ground arith

scroll_column :
    (v : Vga) → (vga_scroll v).cursor_y * 80 + (vga_scroll v).cursor_x ≡ 1920 + v.cursor_x
unfolding vga_scroll
scroll_column v = refl

-- The wrapping after the cursor has gone on by one cell.
wrapped :
    (v : Vga)
    → 0 < v.cursor_x
    → v.cursor_x ≤ 80
    → v.cursor_y < 25
    → let here = v.cursor_y * 80 + v.cursor_x in
      let v' = wrap_screen (wrap_line v) in
      (v'.cursor_y * 80 + v'.cursor_x ≡ (if here == 2000 then 1920 else here))
      × ((k : ℕ)
          → v'.vga_buffer k ≡ (if here == 2000 then scrolled v.vga_buffer k else v.vga_buffer k))
unfolding wrap_line wrap_screen
wrapped v pos col row = elim (Bool-cases (leb 80 v.cursor_x)) [
  | inr inside ↦
      let fits : leb 25 v.cursor_y ≡ false = ground arith in
      let here : (v.cursor_y * 80 + v.cursor_x == 2000) ≡ false = ground arith in
      rw (inside, fits, here) (refl, λ k. refl)
  | inl outside ↦
      let y' : (v.cursor_y + 1) % 256 ≡ v.cursor_y + 1 = omega arith in
      elim (Bool-cases (leb 25 (v.cursor_y + 1))) [
        | inr fits ↦
            let here : (v.cursor_y * 80 + v.cursor_x == 2000) ≡ false = ground arith in
            rw (outside, y', fits, here) (ground arith, λ k. refl)
        | inl last ↦
            let here : (v.cursor_y * 80 + v.cursor_x == 2000) ≡ true = ground arith in
            let v1 : Vga = record v { cursor_x = 0; cursor_y = v.cursor_y + 1 } in
            rw (outside, y', last, here) (scroll_column v1, λ k. vga_scroll_lem v1 k)
      ]
]

-- From a cursor on the screen, a printable character is written at the cursor and to no other cell,
-- and the cursor goes on to the next cell. Behind the last cell of the screen, and only there, the
-- screen then scrolls and the cursor is at the start of the last row.
pub vga_putchar-printable :
    (c : ℕ) (v : Vga)
    → IsValid v
    → 32 ≤ c
    → c ≤ 126
    → let here = v.cursor_y * 80 + v.cursor_x in
      let v' = vga_putchar c v in
      let written = store v.vga_buffer here (vga_entry c v.current_color) in
      (v'.cursor_y * 80 + v'.cursor_x ≡ (if here == 1999 then 1920 else here + 1))
      × ((k : ℕ) → v'.vga_buffer k ≡ (if here == 1999 then scrolled written k else written k))
unfolding vga_putchar
vga_putchar-printable c v on lo hi =
    let col = on.column in
    let row = on.row in
    let here = v.cursor_y * 80 + v.cursor_x in
    let v1 : Vga = record v {
      vga_buffer = store v.vga_buffer here (vga_entry c v.current_color);
      cursor_x = v.cursor_x + 1;
    } in
    let (at_cell, cells) = wrapped v1 (omega arith) (omega arith) row in
    let (same, x, y) = update_keeps (wrap_screen (wrap_line v1)) in
    let next : v.cursor_y * 80 + (v.cursor_x + 1) ≡ here + 1 = omega arith in
    let last : (here + 1 == 2000) ≡ (here == 1999) = ground arith in
    let step = typed c v lo hi col in
    rw (step, x, y, same) (rw (next, last) at at_cell, λ k. rw (next, last) at (cells k))
