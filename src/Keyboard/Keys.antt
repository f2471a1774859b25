-- ===== src/Keyboard/Keys.antt =====
-- What a scan code does in src/keyboard.c: which character it stands for, and what the interrupt
-- handler as a whole does to the queue and the modifiers.
use sant_os.Prelude.{
  ℕ, zero, suc, ◌+◌, ◌%◌, ◌<◌, ◌≤◌, Mem, Bool, true, false, ◌&&◌, ◌||◌, not, List, [], ◌∷◌, ◌++◌,
  ◌==◌, leb, if◌then◌else◌, length, get_or, ◌≡◌, arith, refl, ap, sym, subst, ◌∙◌, Bool-cases, inl,
  inr, bit_and, nonzero, ◌/◌,
}
use sant_os.Prelude.Tables.{holds_below, holds_at}
use sant_os.Keyboard.{
  Keyboard, scancode_to_ascii, put, key_press, keyboard_handler, extended_key, plain_key,
}
use sant_os.Prelude.Bits.{and_shifted_mask, and_ones}
use sant_os.Keyboard.Buffer.{IsValid, contents, waiting, window, contents-put, put-IsValid}

-- What the codes of the modifiers do; no other code is one of them.
pub data Kind : Type 0 where
  prefix shift_down shift_up ctrl_down ctrl_up release key : Kind

-- The class of a code, by the PC keyboard's scan code set 1. The right Ctrl key sends E0 1D.
unfoldable pub kind : Bool → ℕ → Kind
kind e0 sc =
    if sc == 0xE0
    then prefix
    else if sc == 0x2A || sc == 0x36
    then shift_down
    else if sc == 0xAA || sc == 0xB6
    then shift_up
    else if sc == 0x1D && not e0
    then ctrl_down
    else if sc == 0x9D
    then ctrl_up
    else if leb 0x80 sc
    then release
    else key

-- The character that a code types, 0 for none.
unfoldable pub typed : Keyboard → ℕ → ℕ
typed kb sc = elim (kind kb.e0_prefix sc) [
  | key ↦ if kb.e0_prefix then extended_key sc else plain_key kb.ctrl_pressed kb.shift_pressed sc
  | _ ↦ 0
]

-- The modifiers after a code.
unfoldable pub shift_after : Bool → Kind → Bool
shift_after s shift_down = true
shift_after s shift_up = false
shift_after s _ = s

unfoldable pub ctrl_after : Bool → Kind → Bool
ctrl_after c ctrl_down = true
ctrl_after c ctrl_up = false
ctrl_after c _ = c

unfoldable pub e0_after : Kind → Bool
e0_after prefix = true
e0_after _ = false

-- A queue of at most 255 characters, which drops what it has no room for.
abbrev pub offer : List ℕ → ℕ → List ℕ
offer q c = if c == 0 then q else if length q == 255 then q else q ++ c ∷ []

length-window : (m : Mem) (i n : ℕ) → length (window m i n) ≡ n
length-window m i zero = refl
length-window m i (suc n) = ap suc (length-window m ((i + 1) % 256) n)

contents-put-offer :
    (kb : Keyboard) (c : ℕ) → IsValid kb → contents (put kb c) ≡ offer (contents kb) c
contents-put-offer kb c v =
    rw (length-window kb.keyboard_buffer kb.buffer_read (waiting kb)) (contents-put kb v c)

put_modifiers :
    (kb : Keyboard) (c : ℕ)
    → ((put kb c).shift_pressed ≡ kb.shift_pressed)
      × ((put kb c).ctrl_pressed ≡ kb.ctrl_pressed)
      × ((put kb c).e0_prefix ≡ kb.e0_prefix)
unfolding put
put_modifiers kb c = ground arith

-- What the handler does, field by field.
pub record Handles (kb : Keyboard) (sc : ℕ) (kb' : Keyboard) : Type 0 where
  pub queue : contents kb' ≡ offer (contents kb) (typed kb sc)
  pub shift : kb'.shift_pressed ≡ shift_after kb.shift_pressed (kind kb.e0_prefix sc)
  pub ctrl : kb'.ctrl_pressed ≡ ctrl_after kb.ctrl_pressed (kind kb.e0_prefix sc)
  pub e0 : kb'.e0_prefix ≡ e0_after (kind kb.e0_prefix sc)
  pub valid : IsValid kb'

high_bit : (sc : ℕ) → sc < 256 → nonzero (bit_and sc 0x80) ≡ leb 0x80 sc
high_bit sc h = ground (arith, and_shifted_mask 7 sc 1, and_ones 1 (sc / 128))

typed_key :
    (kb : Keyboard) (sc : ℕ)
    → kind kb.e0_prefix sc ≡ key
    → typed kb sc
      ≡ (if kb.e0_prefix then extended_key sc else plain_key kb.ctrl_pressed kb.shift_pressed sc)
unfolding typed
typed_key kb sc is_key = rw (typed, is_key)

key_press-Handles :
    (kb : Keyboard) (sc : ℕ)
    → IsValid kb
    → kind kb.e0_prefix sc ≡ key
    → Handles kb sc (key_press kb sc)
unfolding key_press shift_after ctrl_after e0_after
key_press-Handles kb sc v is_key = elim (Bool-cases kb.e0_prefix) [
  | inl e0 ↦
      let c = extended_key sc in
      let kb1 : Keyboard = record kb { e0_prefix = false } in
      let v1 : IsValid kb1 = record { read_in = v.read_in; write_in = v.write_in } in
      let (s, t, e) = put_modifiers kb1 c in
      let step : key_press kb sc ≡ put kb1 c = rw e0 in
      let char : typed kb sc ≡ c = typed_key kb sc is_key ∙ rw e0 in
      subst (Handles kb sc) (sym step) (record {
        queue = rw char (contents-put-offer kb1 c v1);
        shift = rw is_key s;
        ctrl = rw is_key t;
        e0 = rw is_key e;
        valid = put-IsValid kb1 v1 c;
      })
  | inr plain ↦
      let c = plain_key kb.ctrl_pressed kb.shift_pressed sc in
      let (s, t, e) = put_modifiers kb c in
      let step : key_press kb sc ≡ put kb c = rw plain in
      let char : typed kb sc ≡ c = typed_key kb sc is_key ∙ rw plain in
      subst (Handles kb sc) (sym step) (record {
        queue = rw char (contents-put-offer kb c v);
        shift = rw is_key s;
        ctrl = rw is_key t;
        e0 = rw is_key (e ∙ plain);
        valid = put-IsValid kb v c;
      })
]

with_modifiers : Keyboard → Bool → Bool → Bool → Keyboard
with_modifiers kb s t e = record kb { shift_pressed = s; ctrl_pressed = t; e0_prefix = e }

-- Whether codes of a class type nothing.
silent : Kind → Bool
silent key = false
silent _ = true

silent_lem :
    (kb : Keyboard) (sc : ℕ) (k : Kind)
    → kind kb.e0_prefix sc ≡ k
    → silent k ≡ true
    → typed kb sc ≡ 0
unfolding typed silent
silent_lem kb sc prefix k e = rw (typed, k)
silent_lem kb sc shift_down k e = rw (typed, k)
silent_lem kb sc shift_up k e = rw (typed, k)
silent_lem kb sc ctrl_down k e = rw (typed, k)
silent_lem kb sc ctrl_up k e = rw (typed, k)
silent_lem kb sc release k e = rw (typed, k)
silent_lem kb sc key k e = cc

-- A code that types nothing changes the modifiers alone.
no_char :
    (kb : Keyboard) (sc : ℕ) (k : Kind) (s t e : Bool)
    → IsValid kb
    → kind kb.e0_prefix sc ≡ k
    → silent k ≡ true
    → s ≡ shift_after kb.shift_pressed k
    → t ≡ ctrl_after kb.ctrl_pressed k
    → e ≡ e0_after k
    → Handles kb sc (with_modifiers kb s t e)
unfolding with_modifiers
no_char kb sc k s t e v is_k quiet hs ht he = record {
  queue = rw (silent_lem kb sc k is_k quiet) refl;
  shift = rw is_k hs;
  ctrl = rw is_k ht;
  e0 = rw is_k he;
  valid = record { read_in = v.read_in; write_in = v.write_in };
}

-- One interrupt, of a valid state and any byte from the controller, leaves a valid state. The
-- character that the code types, if it types one, goes to the end of the queue, or is dropped when
-- 255 characters wait. Shift and Ctrl change at their own codes alone; the prefix is remembered for
-- one code.
pub keyboard_handler-Handles :
    (kb : Keyboard) (sc : ℕ) → IsValid kb → sc < 256 → Handles kb sc (keyboard_handler kb sc)
unfolding keyboard_handler kind silent with_modifiers shift_after ctrl_after e0_after
keyboard_handler-Handles kb sc v h =
    let high = high_bit sc h in
    elim (Bool-cases (sc == 0xE0)) [
      | inl p0 ↦
          let k : kind kb.e0_prefix sc ≡ prefix = rw (p0) in
          let step : keyboard_handler kb sc
              ≡ with_modifiers kb kb.shift_pressed kb.ctrl_pressed true =
            rw (p0) in
          subst (Handles kb sc) (sym step)
            (no_char kb sc prefix kb.shift_pressed kb.ctrl_pressed true v k refl refl refl refl)
      | inr p0 ↦ elim (Bool-cases (sc == 0x2A || sc == 0x36)) [
        | inl p1 ↦
            let k : kind kb.e0_prefix sc ≡ shift_down = rw (p0, p1) in
            let step : keyboard_handler kb sc ≡ with_modifiers kb true kb.ctrl_pressed false =
              rw (p0, p1) in
            subst (Handles kb sc) (sym step)
              (no_char kb sc shift_down true kb.ctrl_pressed false v k refl refl refl refl)
        | inr p1 ↦ elim (Bool-cases (sc == 0xAA || sc == 0xB6)) [
          | inl p2 ↦
              let k : kind kb.e0_prefix sc ≡ shift_up = rw (p0, p1, p2) in
              let step : keyboard_handler kb sc ≡ with_modifiers kb false kb.ctrl_pressed false =
                rw (p0, p1, p2) in
              subst (Handles kb sc) (sym step)
                (no_char kb sc shift_up false kb.ctrl_pressed false v k refl refl refl refl)
          | inr p2 ↦ elim (Bool-cases (sc == 0x1D && not kb.e0_prefix)) [
            | inl p3 ↦
                let k : kind kb.e0_prefix sc ≡ ctrl_down = rw (p0, p1, p2, p3) in
                let step : keyboard_handler kb sc ≡ with_modifiers kb kb.shift_pressed true false =
                  rw (p0, p1, p2, p3) in
                subst (Handles kb sc) (sym step)
                  (no_char kb sc ctrl_down kb.shift_pressed true false v k refl refl refl refl)
            | inr p3 ↦ elim (Bool-cases (sc == 0x9D)) [
              | inl p4 ↦
                  let k : kind kb.e0_prefix sc ≡ ctrl_up = rw (p0, p1, p2, p3, p4) in
                  let step : keyboard_handler kb sc
                      ≡ with_modifiers kb kb.shift_pressed false false =
                    rw (p0, p1, p2, p3, p4) in
                  subst (Handles kb sc) (sym step)
                    (no_char kb sc ctrl_up kb.shift_pressed false false v k refl refl refl refl)
              | inr p4 ↦ elim (Bool-cases (leb 0x80 sc)) [
                | inl p5 ↦
                    let k : kind kb.e0_prefix sc ≡ release = rw (p0, p1, p2, p3, p4, p5) in
                    let step : keyboard_handler kb sc
                        ≡ with_modifiers kb kb.shift_pressed kb.ctrl_pressed false =
                      rw (p0, p1, p2, p3, p4, high, p5) in
                    subst (Handles kb sc) (sym step) (
                      no_char kb sc release kb.shift_pressed kb.ctrl_pressed false v k refl refl
                        refl refl)
                | inr p5 ↦
                    let k : kind kb.e0_prefix sc ≡ key = rw (p0, p1, p2, p3, p4, p5) in
                    let step : keyboard_handler kb sc ≡ key_press kb sc =
                      rw (p0, p1, p2, p3, p4, high, p5) in
                    subst (Handles kb sc) (sym step) (key_press-Handles kb sc v k)
              ]
            ]
          ]
        ]
      ]
    ]

letter : ℕ → Bool
letter base = leb b'a' base && leb base b'z'

letter_ok : ℕ → Bool
letter_ok sc =
    let base = get_or scancode_to_ascii sc 0 in
    not (letter base)
    || (plain_key false false sc == base
        && plain_key false true sc + 32 == base
        && plain_key true false sc + 96 == base
        && plain_key true true sc + 96 == base)

letters_ok : holds_below letter_ok 89 ≡ true
unfolding holds_below letter_ok letter plain_key
letters_ok = refl

-- A key of the table whose character without modifiers is a letter gives that letter, with Shift
-- its capital, and with Ctrl its number in the alphabet, whether Shift is down or not.
pub plain_key_letters :
    (sc : ℕ)
    → sc < 89
    → let base = get_or scancode_to_ascii sc 0 in
      b'a' ≤ base
      → base ≤ b'z'
      → (plain_key false false sc ≡ base)
        × (plain_key false true sc + 32 ≡ base)
        × (plain_key true false sc + 96 ≡ base)
        × (plain_key true true sc + 96 ≡ base)
unfolding letter_ok letter
plain_key_letters sc h lo hi = ground (arith, holds_at letter_ok 89 sc h letters_ok)
