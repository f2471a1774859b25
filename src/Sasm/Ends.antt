-- ===== src/Sasm/Ends.antt =====
-- When the loop of src/programs/sasm/sasm.c ends, and how much it puts out.
use sant_os.Prelude.{
  ℕ, zero, suc, ◌+◌, ◌<◌, ◌≤◌, true, false, ◌&&◌, Option, none, some, List, [], ◌∷◌, ◌==◌, ◌≡◌,
  refl, arith, length, get_or, take, Bool-cases, inl, inr, ap, length-append, length-take, ◌⊎◌,
}
use sant_os.Strings.Compare.{same}
use sant_os.Sasm.{
  Message, Outcome, emitted, continued, ret_word, push_word, pop_word, mov_word, encode,
  encode_stack, encode_mov, is_skipped, process_line, cut_line, skip_char, Asm, finish_line, round,
  assemble, at_end, tokens, parse_register, push_bytes, pop_bytes, mov_bytes,
}
use sant_os.Sasm.Encode.{same→≡}
use sant_os.Sasm.Tokens.{first_short, cut_line_length}

-- What the next round does to its line.
abbrev pub outcome : Asm → Outcome
outcome a = process_line a.line_num (take 255 (cut_line a.line_start).0)

-- The line at the pointer is one at which the assembler says `continue`.
pub record IsStuck (a : Asm) : Type 0 where
  pub more : at_end a.line_start ≡ false
  pub messages : List Message
  pub continues : outcome a ≡ continued messages

round-IsStuck : (a : Asm) → IsStuck a → IsStuck (round a)
unfolding round finish_line
round-IsStuck a h =
    let c = h.continues in record { more = rw c h.more; messages = h.messages; continues = rw c c }

-- At a line at which the assembler says `continue`, the loop goes round for ever: it ends with no
-- fuel.
pub assemble_stuck : (fuel : ℕ) (a : Asm) → IsStuck a → assemble fuel a ≡ none
unfolding assemble
assemble_stuck zero a h = refl
assemble_stuck (suc fuel) a h = rw (h.more, assemble_stuck fuel (round a) (round-IsStuck a h)) refl

push_short : (r : ℕ) → length (push_bytes r) ≤ 2
unfolding push_bytes
push_short r = ground arith

pop_short : (r : ℕ) → length (pop_bytes r) ≤ 2
unfolding pop_bytes
pop_short r = ground arith

abbrev bytes_put : Outcome → List ℕ
bytes_put (emitted bytes messages) = bytes
bytes_put (continued messages) = []

stack_short :
    (k : ℕ) (bytes : ℕ → List ℕ) (n : ℕ) (name : List ℕ) (reg : Option ℕ)
    → ((r : ℕ) → length (bytes r) ≤ k)
    → length (bytes_put (encode_stack bytes n name reg)) ≤ k
unfolding encode_stack
stack_short k bytes n name none h = omega arith
stack_short k bytes n name (some r) h = h r

mov_short : (n : ℕ) (dst src : Option ℕ) → length (bytes_put (encode_mov n dst src)) ≤ 3
unfolding encode_mov mov_bytes
mov_short n none src = omega arith
mov_short n (some dst) none = omega arith
mov_short n (some dst) (some src) = omega arith

length-same : (w s : List ℕ) → same w s ≡ true → length w ≡ length s
length-same w s h = ap length (same→≡ w s h)

-- An instruction has no more bytes than its mnemonic has characters.
encode_short :
    (n : ℕ) (words : List (List ℕ))
    → length (bytes_put (encode n words)) ≤ length (get_or words 0 [])
unfolding encode
encode_short n words =
    let instr = get_or words 0 [] in
    let first = get_or words 1 [] in
    let pushed = stack_short 2 push_bytes n first (parse_register first) push_short in
    let popped = stack_short 2 pop_bytes n first (parse_register first) pop_short in
    let moved = mov_short n (parse_register first) (parse_register (get_or words 2 [])) in
    elim (Bool-cases (same instr ret_word)) [
      | inl eq ↦ rw eq (omega (arith, length-same instr ret_word eq))
      | inr no_ret ↦ elim (Bool-cases (same instr push_word && (length words == 2))) [
        | inl eq ↦
            let size = length-same instr push_word (ground arith) in
            rw (no_ret, eq) (omega (arith, size, pushed))
        | inr no_push ↦ elim (Bool-cases (same instr pop_word && (length words == 2))) [
          | inl eq ↦
              let size = length-same instr pop_word (ground arith) in
              rw (no_ret, no_push, eq) (omega (arith, size, popped))
          | inr no_pop ↦ elim (Bool-cases (same instr mov_word && (length words == 3))) [
            | inl eq ↦
                let size = length-same instr mov_word (ground arith) in
                rw (no_ret, no_push, no_pop, eq) (omega (arith, size, moved))
            | inr no_mov ↦ rw (no_ret, no_push, no_pop, no_mov) (omega arith)
          ]
        ]
      ]
    ]

process_short :
    (n : ℕ) (line : List ℕ) {bytes : List ℕ} {messages : List Message}
    → process_line n line ≡ emitted bytes messages
    → (0 < length line) × (length bytes ≤ length line)
unfolding process_line is_skipped
process_short n [] h = absurd (ground arith)
process_short n (c ∷ line) h = elim (Bool-cases (is_skipped (c ∷ line))) [
  | inl skipped ↦ absurd (ground arith)
  | inr kept ↦
      let encoded = rw kept at h in
      let short = encode_short n (tokens (c ∷ line)) in
      (
        omega arith,
        omega (arith, ap (λ o. length (bytes_put o)) encoded, short, first_short (c ∷ line)),
      )
]

skip_char_short : (k : ℕ) (s : List ℕ) → length (skip_char k s) ≤ length s
unfolding skip_char
skip_char_short k [] = omega arith
skip_char_short k (c ∷ s) = ground arith

-- A line that is finished takes more characters from the source than it puts out.
round_short :
    (a : Asm) {bytes : List ℕ} {messages : List Message}
    → outcome a ≡ emitted bytes messages
    → (length (round a).line_start < length a.line_start)
      × (length (round a).output + length (round a).line_start
          ≤ length a.output + length a.line_start)
unfolding round finish_line
round_short a {bytes} {messages} h =
    let cut = cut_line a.line_start in
    let (some_line, bytes_few) = process_short a.line_num (take 255 cut.0) h in
    let shorter = length-take 255 cut.0 in
    let whole = cut_line_length a.line_start in
    let skipped = skip_char_short 13 cut.1 in
    let skipped' = skip_char_short 10 (skip_char 13 cut.1) in
    let out = length-append a.output bytes in rw h (omega arith, omega arith)

outcome_cases :
    (o : Outcome)
    → ((bytes : List ℕ) × (messages : List Message) × (o ≡ emitted bytes messages))
      ⊎ ((messages : List Message) × (o ≡ continued messages))
outcome_cases (emitted bytes messages) = inl (bytes, messages, refl)
outcome_cases (continued messages) = inr (messages, refl)

-- The loop has ended with any fuel from `enough` on.
pub record Ends (enough : ℕ) (a : Asm) : Type 0 where
  pub result : Asm
  pub runs : (fuel : ℕ) → enough ≤ fuel → assemble fuel a ≡ some result
  pub fits : length result.output ≤ length a.output + length a.line_start

now-Ends : (k : ℕ) (a : Asm) → at_end a.line_start ≡ true → Ends (suc k) a
unfolding assemble
now-Ends k a done = record { result = a; runs = λ fuel enough. now fuel enough; fits = omega arith }
  where
    now : (fuel : ℕ) → suc k ≤ fuel → assemble fuel a ≡ some a
    now zero enough = absurd (omega arith)
    now (suc fuel) enough = rw done refl

later-Ends :
    (k : ℕ) (a : Asm) {bytes : List ℕ} {messages : List Message}
    → at_end a.line_start ≡ false
    → outcome a ≡ emitted bytes messages
    → Ends k (round a)
    → Ends (suc k) a
unfolding assemble
later-Ends k a more h later = record {
  result = later.result;
  runs = λ fuel enough. now fuel enough;
  fits = let fits = later.fits in let short = round_short a h in omega arith;
}
  where
    now : (fuel : ℕ) → suc k ≤ fuel → assemble fuel a ≡ some later.result
    now zero enough = absurd (omega arith)
    now (suc fuel) enough = rw (more, later.runs fuel (omega arith)) refl

never_later :
    (fuel : ℕ) (a : Asm)
    → at_end a.line_start ≡ false
    → ((f : ℕ) → assemble f (round a) ≡ none)
    → assemble fuel a ≡ none
unfolding assemble
never_later zero a more h = refl
never_later (suc fuel) a more h = rw (more, h fuel) refl

assemble_within :
    (k : ℕ) (a : Asm) → length a.line_start < k → Ends k a ⊎ ((fuel : ℕ) → assemble fuel a ≡ none)
assemble_within zero a h = absurd (omega arith)
assemble_within (suc k) a h = elim (Bool-cases (at_end a.line_start)) [
  | inl done ↦ inl (now-Ends k a done)
  | inr more ↦ elim (outcome_cases (outcome a)) [
    | inr (messages, stops) ↦
        let stuck : IsStuck a = record { more = more; messages = messages; continues = stops } in
        inr (λ fuel. assemble_stuck fuel a stuck)
    | inl (bytes, messages, puts) ↦
        let short = round_short a puts in
        elim (assemble_within k (round a) (omega arith)) [
          | inl ends ↦ inl (later-Ends k a more puts ends)
          | inr never ↦ inr (λ fuel. never_later fuel a more (λ f. never f))
        ]
  ]
]

-- From any source, the loop of the assembler either ends, with fuel for one round more than there
-- are characters, or goes round for ever. If it ends, it has put out no more bytes than the source
-- has characters, which the buffer for the output has room for.
pub assemble-Ends :
    (a : Asm) → Ends (suc (length a.line_start)) a ⊎ ((fuel : ℕ) → assemble fuel a ≡ none)
assemble-Ends a = assemble_within (suc (length a.line_start)) a (omega arith)
