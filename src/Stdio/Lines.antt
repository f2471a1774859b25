-- ===== src/Stdio/Lines.antt =====
-- The line that `fgets` of src/stdio.c reads.
use sant_os.Prelude.{
  ℕ, suc, ◌+◌, ◌-◌, ◌<◌, ◌≤◌, Mem, store, true, false, ◌&&◌, not, Option, none, some, List, [], ◌∷◌,
  ◌++◌, ◌==◌, ltb, leb, if◌then◌else◌, length, ◌≡◌, ◌≢◌, refl, arith, Bool-cases, inl, inr, ◌∙◌,
  subst, sym,
}
use mathlib.Core.Option.{map}
use sant_os.Strings.{IsString}
use sant_os.Stdio.{Read, is_printable, fgets_from, fgets}

abbrev all_but_last : List ℕ → List ℕ
all_but_last [] = []
all_but_last (c ∷ line) = line

-- A line being typed, the last character first, which a backspace takes away: the whole line, and
-- the keys behind it. There is room for `room` characters.
abbrev pub typed : ℕ → List ℕ → List ℕ → Option (List ℕ × List ℕ)
typed room line [] = if ltb (length line) room then none else some (line, [])
typed room line (c ∷ keys) =
    if not (ltb (length line) room)
    then some (line, c ∷ keys)
    else if c == 10
    then some (10 ∷ line, keys)
    else if c == 8
    then typed room (all_but_last line) keys
    else if is_printable c
    then typed room (c ∷ line) keys
    else typed room line keys

-- A list that ends in front of another, the last character first.
abbrev pub reverse_onto : List ℕ → List ℕ → List ℕ
reverse_onto [] s = s
reverse_onto (c ∷ line) s = reverse_onto line (c ∷ s)

-- The buffer holds the line.
abbrev Holds : Mem → List ℕ → Type 0
Holds m [] = Unit {0}
Holds m (c ∷ line) = (m (length line) ≡ c) × (c ≢ 0) × Holds m line

Holds-IsString :
    (m : Mem) (line s : List ℕ)
    → Holds m line
    → IsString m (length line) s
    → IsString m 0 (reverse_onto line s)
Holds-IsString m [] s h t = t
Holds-IsString m (c ∷ line) s h t =
    let next : suc (length line) ≡ length line + 1 = omega arith in
    Holds-IsString m line (c ∷ s) h.2 (h.0, h.1, rw next at t)

store_here : (m : Mem) (a v : ℕ) → store m a v a ≡ v
unfolding store
store_here m a v = ground arith

store_other : (m : Mem) (a v k : ℕ) → (k == a) ≡ false → store m a v k ≡ m k
unfolding store
store_other m a v k h = rw h refl

Holds-store :
    (m : Mem) (line : List ℕ) (a v : ℕ) → length line ≤ a → Holds m line → Holds (store m a v) line
Holds-store m [] a v h held = tt
Holds-store m (c ∷ line) a v h held = (
  store_other m a v (length line) (ground arith) ∙ held.0,
  held.1,
  Holds-store m line a v (omega arith) held.2,
)

Holds-all_but_last : (m : Mem) (line : List ℕ) → Holds m line → Holds m (all_but_last line)
Holds-all_but_last m [] h = h
Holds-all_but_last m (c ∷ line) h = h.2

-- The call and the line that was typed agree.
abbrev pub Agrees : ℕ → Mem → Option Read → Option (List ℕ × List ℕ) → Type 0
Agrees room str none none = Unit {0}
Agrees room str none (some t) = ⊥
Agrees room str (some r) none = ⊥
Agrees room str (some r) (some t) =
    (r.keys ≡ t.1)
    × IsString r.str 0 (reverse_onto t.0 [])
    × (length t.0 ≤ room)
    × ((k : ℕ) → room < k → r.str k ≡ str k)

-- The end of the line is put behind it.
ended :
    (room : ℕ) (str m : Mem) (line keys shown : List ℕ)
    → length line ≤ room
    → Holds m line
    → ((k : ℕ) → room < k → m k ≡ str k)
    → Agrees room str
        (some (record { str = store m (length line) 0; keys = keys; shown = shown }))
        (some (line, keys))
ended room str m line keys shown fits held same = (
  refl,
  Holds-IsString (store m (length line) 0) line []
      (Holds-store m line (length line) 0 (omega arith) held) (store_here m (length line) 0),
  fits,
  λ k above. store_other m (length line) 0 k (ground arith) ∙ same k above,
)

-- One character more in the buffer.
grown-Holds :
    (m : Mem) (line : List ℕ) (c : ℕ)
    → c ≢ 0
    → Holds m line
    → Holds (store m (length line) c) (c ∷ line)
grown-Holds m line c char held =
    (store_here m (length line) c, char, Holds-store m line (length line) c (omega arith) held)

grown_same :
    (room : ℕ) (str m : Mem) (at c : ℕ)
    → at ≤ room
    → ((k : ℕ) → room < k → m k ≡ str k)
    → (k : ℕ) → room < k
    → store m at c k ≡ str k
grown_same room str m at c inside same k above = store_other m at c k (ground arith) ∙ same k above

abbrev shown_back : List ℕ → List ℕ → List ℕ
shown_back [] shown = shown
shown_back (c ∷ line) shown = shown ++ 8 ∷ []

backspace :
    (room : ℕ) (keys : List ℕ) (m : Mem) (line shown : List ℕ)
    → (if ltb 0 (length line)
        then fgets_from room keys (length line - 1) m (shown ++ 8 ∷ [])
        else fgets_from room keys (length line) m shown)
      ≡ fgets_from room keys (length (all_but_last line)) m (shown_back line shown)
backspace room keys m [] shown = refl
backspace room keys m (c ∷ line) shown =
    let there : ltb 0 (suc (length line)) ≡ true = ground arith in
    let less : suc (length line) - 1 ≡ length line = omega arith in rw (there, less) refl

all_but_last_short : (line : List ℕ) → length (all_but_last line) ≤ length line
all_but_last_short [] = omega arith
all_but_last_short (c ∷ line) = omega arith

fgets_from-Agrees :
    (room : ℕ) (str : Mem) (keys : List ℕ) (m : Mem) (line shown : List ℕ)
    → length line ≤ room
    → Holds m line
    → ((k : ℕ) → room < k → m k ≡ str k)
    → Agrees room str (fgets_from room keys (length line) m shown) (typed room line keys)
unfolding fgets_from is_printable
fgets_from-Agrees room str [] m line shown fits held same =
    elim (Bool-cases (ltb (length line) room)) [
      | inl more ↦ rw more tt
      | inr full ↦ rw full (ended room str m line [] shown fits held same)
    ]
fgets_from-Agrees room str (c ∷ keys) m line shown fits held same =
    elim (Bool-cases (ltb (length line) room)) [
      | inr full ↦ rw full (ended room str m line (c ∷ keys) shown fits held same)
      | inl more ↦ elim (Bool-cases (c == 10)) [
        | inl newline ↦
            let next : suc (length line) ≡ length line + 1 = omega arith in
            let m' = store m (length line) 10 in
            let at_end =
              ended room str m' (10 ∷ line) keys (shown ++ 10 ∷ []) (ground arith)
                (grown-Holds m line 10 (λ e. absurd (omega (arith, e))) held)
                (grown_same room str m (length line) 10 fits same) in
            rw (more, newline)
              (subst
                (λ i.
                  Agrees room str
                    (some (record { str = store m' i 0; keys = keys; shown = shown ++ 10 ∷ [] }))
                    (some (10 ∷ line, keys)))
                next at_end)
        | inr other ↦ elim (Bool-cases (c == 8)) [
          | inl erases ↦
              let short = all_but_last_short line in
              let rest =
                fgets_from-Agrees room str keys m (all_but_last line) (shown_back line shown)
                  (omega (arith, short)) (Holds-all_but_last m line held) same in
              rw (more, other, erases)
                (subst (λ o. Agrees room str o (typed room (all_but_last line) keys))
                  (sym (backspace room keys m line shown)) rest)
          | inr char ↦ elim (Bool-cases (leb 32 c && leb c 126)) [
            | inl printable ↦
                let next : suc (length line) ≡ length line + 1 = omega arith in
                let m' = store m (length line) c in
                let rest =
                  fgets_from-Agrees room str keys m' (c ∷ line) (shown ++ c ∷ []) (ground arith)
                    (grown-Holds m line c (ground arith) held)
                    (grown_same room str m (length line) c fits same) in
                rw (more, other, char, printable)
                  (subst
                    (λ i.
                      Agrees room str (fgets_from room keys i m' (shown ++ c ∷ []))
                        (typed room (c ∷ line) keys))
                    next rest)
            | inr ignored ↦
                rw (more, other, char, ignored)
                  (fgets_from-Agrees room str keys m line shown fits held same)
          ]
        ]
      ]
    ]

-- For a size of at least 1, `fgets` waits for a further key exactly where the line that is typed,
-- with its backspaces, is neither ended by a newline nor fills the room. Otherwise it leaves this
-- line in the buffer as a string of fewer characters than the size, the keys behind it for the next
-- call, and the memory from the size on as it was.
pub fgets-Agrees :
    (room : ℕ) (keys : List ℕ) (str : Mem)
    → (o : Option Read) × (fgets (suc room) keys str ≡ map some o)
      × Agrees room str o (typed room [] keys)
unfolding fgets
fgets-Agrees room keys str = (
  fgets_from room keys 0 str [],
  refl,
  fgets_from-Agrees room str keys str [] [] (omega arith) tt (λ k above. refl),
)
