-- ===== src/Keyboard.antt =====
-- The keyboard driver, src/keyboard.c: scan codes to characters, and the circular buffer.
pub mod Buffer
pub mod Queue
pub mod Keys
mod Tests
use sant_os.Prelude.{
  ℕ, ◌+◌, ◌-◌, ◌%◌, Mem, store, Bool, true, false, ◌&&◌, ◌||◌, not, Option, none, some, List, [],
  ◌∷◌, ◌==◌, ltb, leb, if◌then◌else◌, length, get_or, bit_and, nonzero,
}

abbrev pub buffer_size : ℕ
buffer_size = 256

abbrev pub scancode_to_ascii : List ℕ
scancode_to_ascii =
    0 ∷ 27 ∷ b'1' ∷ b'2' ∷ b'3' ∷ b'4' ∷ b'5' ∷ b'6' ∷ b'7' ∷ b'8' ∷ b'9' ∷ b'0' ∷ b'-' ∷ b'=' ∷ 8
    ∷ 9 ∷ b'q' ∷ b'w' ∷ b'e' ∷ b'r' ∷ b't' ∷ b'y' ∷ b'u' ∷ b'i' ∷ b'o' ∷ b'p' ∷ b'[' ∷ b']' ∷ 10 ∷ 0
    ∷ b'a' ∷ b's' ∷ b'd' ∷ b'f' ∷ b'g' ∷ b'h' ∷ b'j' ∷ b'k' ∷ b'l' ∷ b';' ∷ 39 ∷ b'`' ∷ 0 ∷ 92
    ∷ b'z' ∷ b'x' ∷ b'c' ∷ b'v' ∷ b'b' ∷ b'n' ∷ b'm' ∷ b',' ∷ b'.' ∷ b'/' ∷ 0 ∷ b'*' ∷ 0 ∷ 32 ∷ 0
    ∷ 0 ∷ 0 ∷ 0 ∷ 0 ∷ 0 ∷ 0 ∷ 0 ∷ 0 ∷ 0 ∷ 0 ∷ 0 ∷ 0 ∷ 0 ∷ 0 ∷ 0 ∷ b'-' ∷ 0 ∷ 0 ∷ 0 ∷ b'+' ∷ 0 ∷ 0
    ∷ 0 ∷ 0 ∷ 0 ∷ 0 ∷ 0 ∷ 0 ∷ 0 ∷ 0 ∷ []

abbrev pub scancode_to_ascii_shift : List ℕ
scancode_to_ascii_shift =
    0 ∷ 27 ∷ b'!' ∷ b'@' ∷ b'#' ∷ b'$' ∷ b'%' ∷ b'^' ∷ b'&' ∷ b'*' ∷ b'(' ∷ b')' ∷ b'_' ∷ b'+' ∷ 8
    ∷ 9 ∷ b'Q' ∷ b'W' ∷ b'E' ∷ b'R' ∷ b'T' ∷ b'Y' ∷ b'U' ∷ b'I' ∷ b'O' ∷ b'P' ∷ b'{' ∷ b'}' ∷ 10 ∷ 0
    ∷ b'A' ∷ b'S' ∷ b'D' ∷ b'F' ∷ b'G' ∷ b'H' ∷ b'J' ∷ b'K' ∷ b'L' ∷ b':' ∷ b'"' ∷ b'~' ∷ 0 ∷ b'|'
    ∷ b'Z' ∷ b'X' ∷ b'C' ∷ b'V' ∷ b'B' ∷ b'N' ∷ b'M' ∷ b'<' ∷ b'>' ∷ b'?' ∷ []

-- The driver's variables.
pub record Keyboard : Type 0 where
  pub keyboard_buffer : Mem
  pub buffer_read : ℕ
  pub buffer_write : ℕ
  pub shift_pressed : Bool
  pub ctrl_pressed : Bool
  pub e0_prefix : Bool

-- The characters of the arrow keys; 0 is none.
unfoldable pub extended_key : ℕ → ℕ
extended_key scancode =
    if scancode == 0x4B
    then 0x01
    else if scancode == 0x4D
    then 0x02
    else if scancode == 0x48
    then 0x03
    else if scancode == 0x50
    then 0x04
    else 0

-- The keys of the tables, with Ctrl and Shift.
unfoldable pub plain_key : Bool → Bool → ℕ → ℕ
plain_key ctrl shift scancode =
    let base = get_or scancode_to_ascii scancode 0 in
    if ltb scancode (length scancode_to_ascii)
    then (if ctrl
        then (if leb b'a' base && leb base b'z' then base - b'a' + 1 else 0)
        else if shift && ltb scancode (length scancode_to_ascii_shift)
        then get_or scancode_to_ascii_shift scancode 0
        else base)
    else 0

-- `if (ascii != 0)`: a character for which there is no room is dropped.
unfoldable pub put : Keyboard → ℕ → Keyboard
put kb ascii =
    let next_write = (kb.buffer_write + 1) % buffer_size in
    if ascii == 0 then kb else if next_write == kb.buffer_read then kb else record kb {
      keyboard_buffer = store kb.keyboard_buffer kb.buffer_write ascii;
      buffer_write = next_write;
    }

-- A key that is pressed and is no modifier.
unfoldable pub key_press : Keyboard → ℕ → Keyboard
key_press kb scancode =
    if kb.e0_prefix
    then put (record kb { e0_prefix = false }) (extended_key scancode)
    else put kb (plain_key kb.ctrl_pressed kb.shift_pressed scancode)

-- `keyboard_handler`, for the byte read from the data port.
unfoldable pub keyboard_handler : Keyboard → ℕ → Keyboard
keyboard_handler kb scancode =
    if scancode == 0xE0
    then record kb { e0_prefix = true }
    else if scancode == 0x2A || scancode == 0x36
    then record kb { shift_pressed = true; e0_prefix = false }
    else if scancode == 0xAA || scancode == 0xB6
    then record kb { shift_pressed = false; e0_prefix = false }
    else if scancode == 0x1D && not kb.e0_prefix
    then record kb { ctrl_pressed = true; e0_prefix = false }
    else if scancode == 0x9D
    then record kb { ctrl_pressed = false; e0_prefix = false }
    else if nonzero (bit_and scancode 0x80)
    then record kb { e0_prefix = false }
    else key_press kb scancode

unfoldable pub keyboard_available : Keyboard → Bool
keyboard_available kb = not (kb.buffer_read == kb.buffer_write)

-- The end of `keyboard_getchar`, once a key is there.
unfoldable pub take_char : Keyboard → Keyboard × ℕ
take_char kb = (
  record kb { buffer_read = (kb.buffer_read + 1) % buffer_size },
  kb.keyboard_buffer kb.buffer_read,
)

-- `keyboard_getchar` over the scan codes of the interrupts that wake it; `none` if they run out
-- while it waits.
unfoldable pub keyboard_getchar : List ℕ → Keyboard → Option (Keyboard × ℕ)
keyboard_getchar [] kb = if keyboard_available kb then some (take_char kb) else none
keyboard_getchar (scancode ∷ later) kb =
    let rest = keyboard_getchar later (keyboard_handler kb scancode) in
    if keyboard_available kb then some (take_char kb) else rest

-- The interrupts of a list of scan codes.
unfoldable pub run : Keyboard → List ℕ → Keyboard
run kb [] = kb
run kb (scancode ∷ later) = run (keyboard_handler kb scancode) later
