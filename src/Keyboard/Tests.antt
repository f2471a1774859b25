-- ===== src/Keyboard/Tests.antt =====
-- Tests of the model of src/keyboard.c, and the theorems at concrete inputs.
use sant_os.Prelude.{◌+◌, store, true, false, [], ◌∷◌, ◌==◌, if◌then◌else◌, ◌≡◌, refl, arith, ◌↔◌}
use sant_os.Keyboard.{
  Keyboard, put, key_press, keyboard_handler, keyboard_available, take_char, extended_key,
  plain_key, run,
}
use sant_os.Keyboard.Buffer.{IsValid, contents, contents-put, available_iff, contents-take_char}
use sant_os.Keyboard.Queue.{key, read, events, queue, events-queue}
use sant_os.Keyboard.Keys.{Handles, keyboard_handler-Handles, plain_key_letters}

-- Two characters wait, on either side of the end of the buffer.
abbrev two : Keyboard
two = record {
  keyboard_buffer = λ i. if i == 255 then 104 else 105;
  buffer_read = 255;
  buffer_write = 1;
  shift_pressed = true;
  ctrl_pressed = false;
  e0_prefix = false;
}

two-IsValid : IsValid two
two-IsValid = record { read_in = omega arith; write_in = omega arith }

-- Shift down, A, Shift up, A, and an arrow.
typed_so_far :
    contents (run two (0x2A ∷ 0x1E ∷ 0x9E ∷ 0xAA ∷ 0x1E ∷ 0xE0 ∷ 0x48 ∷ []))
    ≡ 104 ∷ 105 ∷ 65 ∷ 97 ∷ 3 ∷ []
unfolding run keyboard_handler key_press put extended_key plain_key store
typed_so_far = refl

contents-put_case : contents (put two 33) ≡ 104 ∷ 105 ∷ 33 ∷ []
contents-put_case = contents-put two two-IsValid 33

available_iff_case : (keyboard_available two ≡ false) ↔ (contents two ≡ [])
available_iff_case = available_iff two two-IsValid

contents-take_char_case : contents two ≡ (take_char two).1 ∷ contents (take_char two).0
unfolding keyboard_available
contents-take_char_case = contents-take_char two two-IsValid refl

events-queue_example :
    let es = read ∷ key 33 ∷ read ∷ read ∷ read ∷ [] in
    ((events two es).1 ≡ (queue (contents two) es).1)
    × (contents (events two es).0 ≡ (queue (contents two) es).0)
events-queue_example = events-queue two (read ∷ key 33 ∷ read ∷ read ∷ read ∷ []) two-IsValid

keyboard_handler-Handles_example : Handles two 0x1E (keyboard_handler two 0x1E)
keyboard_handler-Handles_example = keyboard_handler-Handles two 0x1E two-IsValid (omega arith)

plain_key_letters_case :
    (plain_key false false 0x1E ≡ 97)
    × (plain_key false true 0x1E + 32 ≡ 97)
    × (plain_key true false 0x1E + 96 ≡ 97)
    × (plain_key true true 0x1E + 96 ≡ 97)
plain_key_letters_case = plain_key_letters 0x1E (omega arith) (omega arith) (omega arith)
