-- ===== src/Keyboard/Buffer.antt =====
-- The circular buffer of src/keyboard.c is a queue of at most 255 characters.
use sant_os.Prelude.{
  ℕ, zero, suc, ◌+◌, ◌-◌, ◌%◌, ◌<◌, ◌≤◌, Mem, store, true, false, List, [], ◌∷◌, ◌++◌, ◌==◌,
  if◌then◌else◌, ◌≡◌, arith, refl, ap, ap₂, ◌↔◌, Bool-cases, inl, inr, ◌∙◌,
}
use sant_os.Keyboard.{Keyboard, put, keyboard_available, take_char}

pub record IsValid (kb : Keyboard) : Type 0 where
  pub read_in : kb.buffer_read < 256
  pub write_in : kb.buffer_write < 256

-- The `n` characters from index `i` on, going round at 256.
abbrev pub window : Mem → ℕ → ℕ → List ℕ
window m i zero = []
window m i (suc n) = m i ∷ window m ((i + 1) % 256) n

-- How many characters wait, and which.
abbrev pub waiting : Keyboard → ℕ
waiting kb = (kb.buffer_write + 256 - kb.buffer_read) % 256

abbrev pub contents : Keyboard → List ℕ
contents kb = window kb.keyboard_buffer kb.buffer_read (waiting kb)

-- A store at an index outside the window.
window-store :
    (m : Mem) (i n k v : ℕ)
    → i < 256
    → k < 256
    → n ≤ (k + 256 - i) % 256
    → window (store m k v) i n ≡ window m i n
unfolding store
window-store m i zero k v hi hk h = refl
window-store m i (suc n) k v hi hk h =
    let ne : (i == k) ≡ false = ground arith in
    let rest = window-store m ((i + 1) % 256) n k v (omega arith) hk (omega arith) in rw (ne, rest)

-- The character at the end of a window.
window-snoc :
    (m : Mem) (i n : ℕ) → i < 256 → window m i (suc n) ≡ window m i n ++ m ((i + n) % 256) ∷ []
window-snoc m i zero h = let e : (i + 0) % 256 ≡ i = omega arith in rw e
window-snoc m i (suc n) h =
    let e : ((i + 1) % 256 + n) % 256 ≡ (i + suc n) % 256 = omega arith in
    ap (m i ∷◌) (rw e at (window-snoc m ((i + 1) % 256) n (omega arith)))

store_self : (m : Mem) (i v : ℕ) → store m i v i ≡ v
unfolding store
store_self m i v = ground arith

window_empty : (m : Mem) (i n : ℕ) → window m i n ≡ [] → n ≡ 0
window_empty m i zero e = refl
window_empty m i (suc n) e = cc

module _ (kb : Keyboard) (v : IsValid kb) where
  -- In a valid state, a character that is not 0 goes to the end of the queue, unless 255 characters
  -- wait: then it is dropped.
  pub contents-put :
      (c : ℕ)
      → contents (put kb c) ≡ (
          if c == 0
          then contents kb
          else if waiting kb == 255
          then contents kb
          else contents kb ++ c ∷ [])
  unfolding put
  contents-put c = elim (Bool-cases (c == 0)) [
    | inl zero_char ↦ rw zero_char
    | inr char ↦ elim (Bool-cases (waiting kb == 255)) [
      | inl full ↦
          let r = v.read_in in
          let w = v.write_in in
          let no_room : ((kb.buffer_write + 1) % 256 == kb.buffer_read) ≡ true = ground arith in
          rw (char, no_room, full)
      | inr room ↦
          let r = v.read_in in
          let w = v.write_in in
          let n = waiting kb in
          let room' : ((kb.buffer_write + 1) % 256 == kb.buffer_read) ≡ false = ground arith in
          let more : ((kb.buffer_write + 1) % 256 + 256 - kb.buffer_read) % 256 ≡ suc n =
            ground arith in
          let m' = store kb.keyboard_buffer kb.buffer_write c in
          let at_end : (kb.buffer_read + n) % 256 ≡ kb.buffer_write = omega arith in
          let stored : m' ((kb.buffer_read + n) % 256) ≡ c =
            ap m' at_end ∙ store_self kb.keyboard_buffer kb.buffer_write c in
          let before =
            window-store kb.keyboard_buffer kb.buffer_read n kb.buffer_write c r w (omega arith) in
          rw (char, room', room, more)
            (window-snoc m' kb.buffer_read n r ∙ ap₂ (λ xs (x : ℕ). xs ++ x ∷ []) before stored)
    ]
  ]

  -- `keyboard_available` says whether the queue is not empty.
  pub available_iff : (keyboard_available kb ≡ false) ↔ (contents kb ≡ [])
  unfolding keyboard_available
  available_iff =
      let r = v.read_in in
      let w = v.write_in in
      (
        λ e. let none_wait : waiting kb ≡ 0 = ground arith in rw none_wait,
        λ e.
            let none_wait = window_empty kb.keyboard_buffer kb.buffer_read (waiting kb) e in
            ground arith,
      )

  -- In a valid state, a key that is available comes from the front of the queue.
  pub contents-take_char :
      keyboard_available kb ≡ true → contents kb ≡ (take_char kb).1 ∷ contents (take_char kb).0
  unfolding keyboard_available take_char
  contents-take_char there =
      let r = v.read_in in
      let w = v.write_in in
      let fewer : waiting kb ≡ suc ((kb.buffer_write + 256 - (kb.buffer_read + 1) % 256) % 256) =
        ground arith in
      rw fewer

  pub put-IsValid : (c : ℕ) → IsValid (put kb c)
  unfolding put
  put-IsValid c = ground arith

  pub take_char-IsValid : IsValid (take_char kb).0
  unfolding take_char
  take_char-IsValid = ground arith
