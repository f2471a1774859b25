-- ===== src/Stdio.antt =====
-- Reading lines and values from the keyboard, src/stdio.c, over the characters that
-- `keyboard_getchar` returns one after the other. `none` is a call that waits for a further key.
pub mod Lines
pub mod Scan
mod Tests
use mathlib.Core.Option.{map}
use sant_os.Prelude.{
  ℕ, zero, suc, ◌+◌, ◌-◌, ◌^◌, Mem, store, Bool, true, false, ◌&&◌, ◌||◌, not, Option, none, some,
  List, [], ◌∷◌, ◌++◌, ◌==◌, ltb, leb, if◌then◌else◌, length,
}

-- A call that has returned: the buffer, the keys that are left, and what `putchar` has shown.
pub record Read : Type 0 where
  pub str : Mem
  pub keys : List ℕ
  pub shown : List ℕ

unfoldable pub is_printable : ℕ → Bool
is_printable c = leb 32 c && leb c 126

unfoldable pub gets_from : List ℕ → ℕ → Mem → List ℕ → Option Read
gets_from [] i str shown = none
gets_from (c ∷ keys) i str shown =
    let back = gets_from keys (i - 1) str (shown ++ 8 ∷ []) in
    let stay = gets_from keys i str shown in
    let on = gets_from keys (i + 1) (store str i c) (shown ++ c ∷ []) in
    if c == 10
    then some (record { str = store str i 0; keys = keys; shown = shown ++ 10 ∷ [] })
    else if c == 8
    then (if ltb 0 i then back else stay)
    else on

unfoldable pub gets : List ℕ → Mem → Option Read
gets keys str = gets_from keys 0 str []

-- The loop of `fgets`, where `room` is n - 1. The buffer is full before the next key is awaited.
unfoldable pub fgets_from : ℕ → List ℕ → ℕ → Mem → List ℕ → Option Read
fgets_from room [] i str shown =
    if ltb i room then none else some (record { str = store str i 0; keys = []; shown = shown })
fgets_from room (c ∷ keys) i str shown =
    let back = fgets_from room keys (i - 1) str (shown ++ 8 ∷ []) in
    let stay = fgets_from room keys i str shown in
    let on = fgets_from room keys (i + 1) (store str i c) (shown ++ c ∷ []) in
    if not (ltb i room)
    then some (record { str = store str i 0; keys = c ∷ keys; shown = shown })
    else if c == 10
    then some
        (record { str = store (store str i 10) (i + 1) 0; keys = keys; shown = shown ++ 10 ∷ [] })
    else if c == 8
    then (if ltb 0 i then back else stay)
    else if is_printable c
    then on
    else stay

-- For a size that is not positive, `fgets` returns `NULL` and does nothing, here the inner `none`.
unfoldable pub fgets : ℕ → List ℕ → Mem → Option (Option Read)
fgets zero keys str = some none
fgets (suc room) keys str = map some (fgets_from room keys 0 str [])
