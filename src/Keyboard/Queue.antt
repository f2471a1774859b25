-- ===== src/Keyboard/Queue.antt =====
-- Any sequence of key presses and reads leaves the buffer of src/keyboard.c as a queue would be.
use sant_os.Prelude.{
  ℕ, zero, suc, ◌+◌, ◌%◌, List, [], ◌∷◌, ◌++◌, ◌==◌, if◌then◌else◌, ◌≡◌, refl, ap, ap₂, length,
  Bool-cases, inl, inr, ◌∙◌, sym,
}
use sant_os.Keyboard.{Keyboard, put, keyboard_available, take_char}
use sant_os.Keyboard.Buffer.{
  IsValid, waiting, window, contents, contents-put, available_iff, contents-take_char, put-IsValid,
  take_char-IsValid,
}

-- What happens to the buffer: the interrupt handler puts a character, or a program asks for one,
-- which is taken if there is one.
pub data Event : Type 0 where
  key : ℕ → Event
  read : Event

abbrev pub happen : Keyboard → Event → Keyboard × List ℕ
happen kb (key c) = (put kb c, [])
happen kb read =
    if keyboard_available kb then ((take_char kb).0, (take_char kb).1 ∷ []) else (kb, [])

-- All of the events, and the characters that the reads got.
abbrev pub events : Keyboard → List Event → Keyboard × List ℕ
events kb [] = (kb, [])
events kb (e ∷ es) = let rest = events (happen kb e).0 es in (rest.0, (happen kb e).1 ++ rest.1)

-- The same of a queue that holds 255 characters.
abbrev pub queue_step : List ℕ → Event → List ℕ × List ℕ
queue_step q (key c) = (if c == 0 then q else if length q == 255 then q else q ++ c ∷ [], [])
queue_step [] read = ([], [])
queue_step (c ∷ q) read = (q, c ∷ [])

abbrev pub queue : List ℕ → List Event → List ℕ × List ℕ
queue q [] = (q, [])
queue q (e ∷ es) = let rest = queue (queue_step q e).0 es in (rest.0, (queue_step q e).1 ++ rest.1)

length-window : (m : ℕ → ℕ) (i n : ℕ) → length (window m i n) ≡ n
length-window m i zero = refl
length-window m i (suc n) = ap suc (length-window m ((i + 1) % 256) n)

-- One event.
record Refines (kb : Keyboard) (e : Event) : Type 0 where
  valid : IsValid (happen kb e).0
  left : contents (happen kb e).0 ≡ (queue_step (contents kb) e).0
  got : (happen kb e).1 ≡ (queue_step (contents kb) e).1

happen-Refines : (kb : Keyboard) (e : Event) → IsValid kb → Refines kb e
happen-Refines kb (key c) v =
    let size = length-window kb.keyboard_buffer kb.buffer_read (waiting kb) in
    record { valid = put-IsValid kb v c; left = rw size (contents-put kb v c); got = refl }
happen-Refines kb read v = elim (Bool-cases (keyboard_available kb)) [
  | inl there ↦
      let front = contents-take_char kb v there in
      let taken = ap (λ q. queue_step q read) front in
      record {
        valid = rw there (take_char-IsValid kb v);
        left = rw there (sym (ap (λ (r : List ℕ × List ℕ). r.0) taken));
        got = rw there (sym (ap (λ (r : List ℕ × List ℕ). r.1) taken));
      }
  | inr empty ↦
      let nothing = (available_iff kb v).0 empty in
      record { valid = rw empty v; left = rw (empty, nothing) refl; got = rw (empty, nothing) refl }
]

-- From a valid state, any sequence of characters that are put and reads that are made gives the
-- reads the characters that a queue of at most 255 characters gives them, in their order, and
-- leaves in the buffer what the queue is left with. A character 0 and the characters that find the
-- queue full are dropped.
pub events-queue :
    (kb : Keyboard) (es : List Event)
    → IsValid kb
    → ((events kb es).1 ≡ (queue (contents kb) es).1)
      × (contents (events kb es).0 ≡ (queue (contents kb) es).0)
events-queue kb [] v = (refl, refl)
events-queue kb (e ∷ es) v =
    let one = happen-Refines kb e v in
    let (got, left) = events-queue (happen kb e).0 es one.valid in
    let same = one.left in
    (
      ap₂ (λ (a b : List ℕ). a ++ b) one.got (got ∙ ap (λ q. (queue q es).1) same),
      left ∙ ap (λ q. (queue q es).0) same,
    )
