-- ===== src/Sasm/Lines.antt =====
-- The lines of single instructions that src/programs/sasm/sasm.c assembles.
use sant_os.Prelude.{
  ℕ, ◌<◌, ◌≤◌, Bool, true, ◌&&◌, some, List, [], ◌∷◌, ◌++◌, ltb, leb, ◌≡◌, refl, arith, length,
  get_or, length-append,
}
use sant_os.Prelude.Tables.{holds_below, holds_at}
use sant_os.Sasm.{
  names, emitted, ret_word, push_word, pop_word, mov_word, encode, encode_stack, encode_mov,
  is_skipped, process_line, parse_register, push_bytes, pop_bytes, mov_bytes, ends_line, ends_token,
  is_blank,
}
use sant_os.Sasm.Encode.{Instr, ret, push, pop, mov, IsInstr, bytes_of, parse_register-names}
use sant_os.Sasm.Tokens.{
  AllPlain, plain, plain-AllPlain, tokens_one, tokens_two, tokens_three, IsLine, plain-IsLine,
  IsLine-append,
}

-- An instruction as a line of source.
abbrev pub line_of : Instr → List ℕ
line_of ret = ret_word
line_of (push r) = push_word ++ (b' ' ∷ get_or names r [])
line_of (pop r) = pop_word ++ (b' ' ∷ get_or names r [])
line_of (mov dst src) =
    mov_word ++ (b' ' ∷ (get_or names dst [] ++ (b',' ∷ b' ' ∷ get_or names src [])))

-- The name of a register is a word of at most three characters.
record IsName (s : List ℕ) : Type 0 where
  word : AllPlain s
  some_char : 0 < length s
  short : length s ≤ 3

abbrev is_name : ℕ → Bool
is_name r = let s = get_or names r [] in plain s && (ltb 0 (length s) && leb (length s) 3)

names-IsName : (r : ℕ) → r < 16 → IsName (get_or names r [])
unfolding ends_token ends_line is_blank
names-IsName r h =
    let table = holds_at is_name 16 r h (unfold holds_below in refl) in
    record {
      word = plain-AllPlain (get_or names r []) (ground arith);
      some_char = ground arith;
      short = ground arith;
    }

-- A line that is short, has no line end and comes to some bytes.
pub record Assembles (line bytes : List ℕ) : Type 0 where
  pub one_line : IsLine line
  pub short : length line ≤ 255
  pub comes_to : (n : ℕ) → process_line n line ≡ emitted bytes []

word_plain : (w : List ℕ) → plain w ≡ true → IsLine w
word_plain w h = plain-IsLine w (plain-AllPlain w h)

abbrev WordsPlain : Type 0
WordsPlain = AllPlain ret_word × AllPlain push_word × AllPlain pop_word × AllPlain mov_word

words_plain : WordsPlain
unfolding ends_token is_blank ends_line
words_plain = (
  plain-AllPlain ret_word refl,
  plain-AllPlain push_word refl,
  plain-AllPlain pop_word refl,
  plain-AllPlain mov_word refl,
)

spaced : (s : List ℕ) → AllPlain s → IsLine (b' ' ∷ s)
unfolding ends_line
spaced s h = (refl, plain-IsLine s h)

ret-Assembles : Assembles ret_word (0xC3 ∷ [])
unfolding process_line is_skipped encode
ret-Assembles = record {
  one_line = plain-IsLine ret_word words_plain.0;
  short = omega arith;
  comes_to = λ n. rw (tokens_one b'r' (b'e' ∷ b't' ∷ []) words_plain.0) refl;
}

push-Assembles :
    (s : List ℕ) (r : ℕ)
    → IsName s
    → parse_register s ≡ some r
    → Assembles (push_word ++ (b' ' ∷ s)) (push_bytes r)
unfolding process_line is_skipped encode encode_stack
push-Assembles [] r name parsed = absurd (let p = name.some_char in omega arith)
push-Assembles (c ∷ w) r name parsed =
    let split = tokens_two b'p' (b'u' ∷ b's' ∷ b'h' ∷ []) c w words_plain.1 name.word in
    let short = name.short in
    record {
      one_line =
          IsLine-append push_word (b' ' ∷ (c ∷ w)) (plain-IsLine push_word words_plain.1)
            (spaced (c ∷ w) name.word);
      short = omega arith;
      comes_to = λ n. rw (split, parsed) refl;
    }

pop-Assembles :
    (s : List ℕ) (r : ℕ)
    → IsName s
    → parse_register s ≡ some r
    → Assembles (pop_word ++ (b' ' ∷ s)) (pop_bytes r)
unfolding process_line is_skipped encode encode_stack
pop-Assembles [] r name parsed = absurd (let p = name.some_char in omega arith)
pop-Assembles (c ∷ w) r name parsed =
    let split = tokens_two b'p' (b'o' ∷ b'p' ∷ []) c w words_plain.2 name.word in
    let short = name.short in
    record {
      one_line =
          IsLine-append pop_word (b' ' ∷ (c ∷ w)) (plain-IsLine pop_word words_plain.2)
            (spaced (c ∷ w) name.word);
      short = omega arith;
      comes_to = λ n. rw (split, parsed) refl;
    }

mov-Assembles :
    (s t : List ℕ) (dst src : ℕ)
    → IsName s
    → IsName t
    → parse_register s ≡ some dst
    → parse_register t ≡ some src
    → Assembles (mov_word ++ (b' ' ∷ (s ++ (b',' ∷ b' ' ∷ t)))) (mov_bytes dst src)
unfolding process_line is_skipped encode encode_mov ends_line
mov-Assembles [] t dst src ns nt ps pt = absurd (let p = ns.some_char in omega arith)
mov-Assembles (c ∷ w) [] dst src ns nt ps pt = absurd (let p = nt.some_char in omega arith)
mov-Assembles (c ∷ w) (d ∷ v) dst src ns nt ps pt =
    let split = tokens_three b'm' (b'o' ∷ b'v' ∷ []) c w d v words_plain.3 ns.word nt.word in
    let short = ns.short in
    let short' = nt.short in
    let behind : List ℕ = b',' ∷ b' ' ∷ (d ∷ v) in
    let ends : IsLine behind = (refl, spaced (d ∷ v) nt.word) in
    let lines = IsLine-append (c ∷ w) behind (plain-IsLine (c ∷ w) ns.word) ends in
    let spaced_lines : IsLine (b' ' ∷ ((c ∷ w) ++ behind)) = (refl, lines) in
    record {
      one_line =
          IsLine-append mov_word (b' ' ∷ ((c ∷ w) ++ behind)) (plain-IsLine mov_word words_plain.3)
            spaced_lines;
      short = omega (arith, length-append w behind);
      comes_to = λ n. rw (split, ps, pt) refl;
    }

pub line_of-Assembles : (i : Instr) → IsInstr i → Assembles (line_of i) (bytes_of i)
line_of-Assembles ret h = ret-Assembles
line_of-Assembles (push r) h =
    push-Assembles (get_or names r []) r (names-IsName r h) (parse_register-names r h)
line_of-Assembles (pop r) h =
    pop-Assembles (get_or names r []) r (names-IsName r h) (parse_register-names r h)
line_of-Assembles (mov dst src) h =
    let d = get_or names dst [] in
    let s = get_or names src [] in
    mov-Assembles d s dst src (names-IsName dst h.0) (names-IsName src h.1)
      (parse_register-names dst h.0) (parse_register-names src h.1)
