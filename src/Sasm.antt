-- ===== src/Sasm.antt =====
-- The assembler, src/programs/sasm/sasm.c. A C string is the list of its characters; -1 of
-- `parse_register` is `none`.
pub mod Encode
pub mod Tokens
pub mod Lines
pub mod Program
pub mod Ends
pub mod Stuck
pub mod Main
mod Tests
use sant_os.Prelude.{
  ℕ, zero, suc, ◌+◌, ◌*◌, ◌^◌, Bool, true, false, ◌||◌, ◌&&◌, not, Option, none, some, List, [],
  ◌∷◌, ◌++◌, ◌==◌, leb, if◌then◌else◌, length, take, get_elem?, get_or, bit_and, bit_or,
}
use sant_os.Strings.Compare.{same}

unfoldable pub make_modrm : ℕ → ℕ → ℕ → ℕ
make_modrm mode reg rm = bit_or (bit_or (mode * 2 ^ 6) (bit_and reg 0x7 * 2 ^ 3)) (bit_and rm 0x7)

unfoldable pub needs_rex : ℕ → Bool
needs_rex reg = leb 8 reg

unfoldable pub make_rex : ℕ → ℕ → ℕ → ℕ → ℕ
make_rex w r x b = bit_or (bit_or (bit_or (bit_or 0x40 (w * 2 ^ 3)) (r * 2 ^ 2)) (x * 2)) b

-- The names of the registers, each at its number.
abbrev pub names : List (List ℕ)
names =
    (b'r' ∷ b'a' ∷ b'x' ∷ [])
    ∷ (b'r' ∷ b'c' ∷ b'x' ∷ [])
    ∷ (b'r' ∷ b'd' ∷ b'x' ∷ [])
    ∷ (b'r' ∷ b'b' ∷ b'x' ∷ [])
    ∷ (b'r' ∷ b's' ∷ b'p' ∷ [])
    ∷ (b'r' ∷ b'b' ∷ b'p' ∷ [])
    ∷ (b'r' ∷ b's' ∷ b'i' ∷ [])
    ∷ (b'r' ∷ b'd' ∷ b'i' ∷ [])
    ∷ (b'r' ∷ b'8' ∷ [])
    ∷ (b'r' ∷ b'9' ∷ [])
    ∷ (b'r' ∷ b'1' ∷ b'0' ∷ [])
    ∷ (b'r' ∷ b'1' ∷ b'1' ∷ [])
    ∷ (b'r' ∷ b'1' ∷ b'2' ∷ [])
    ∷ (b'r' ∷ b'1' ∷ b'3' ∷ [])
    ∷ (b'r' ∷ b'1' ∷ b'4' ∷ [])
    ∷ (b'r' ∷ b'1' ∷ b'5' ∷ [])
    ∷ []

-- The chain of `if (strcmp(name, ...) == 0) return ...;`.
unfoldable pub first_named : List (List ℕ) → ℕ → List ℕ → Option ℕ
first_named [] reg name = none
first_named (n ∷ ns) reg name =
    let rest = first_named ns (reg + 1) name in if same name n then some reg else rest

unfoldable pub parse_register : List ℕ → Option ℕ
parse_register name = first_named names 0 name

-- Whether the pointer is at the NUL.
abbrev pub at_end : List ℕ → Bool
at_end [] = true
at_end (c ∷ p) = false

unfoldable pub is_blank : ℕ → Bool
is_blank c = (c == b' ') || (c == 9)

unfoldable pub ends_token : ℕ → Bool
ends_token c = is_blank c || (c == b',')

unfoldable pub skip_blanks : List ℕ → List ℕ
skip_blanks [] = []
skip_blanks (c ∷ p) = let rest = skip_blanks p in if is_blank c then rest else c ∷ p

unfoldable pub skip_separators : List ℕ → List ℕ
skip_separators [] = []
skip_separators (c ∷ p) = let rest = skip_separators p in if ends_token c then rest else c ∷ p

-- A token up to its end, and what is behind the character that ends it.
unfoldable pub token : List ℕ → List ℕ × List ℕ
token [] = ([], [])
token (c ∷ p) = let rest = token p in if ends_token c then ([], p) else (c ∷ rest.0, rest.1)

-- The operands of a line, of which there is room for `room`.
unfoldable pub operands : ℕ → List ℕ → List (List ℕ)
operands zero p = []
operands (suc room) p =
    let p' = skip_separators p in
    let rest = operands room (token p').1 in if at_end p' then [] else (token p').0 ∷ rest

-- `tokens[4]`: the mnemonic and at most three operands.
unfoldable pub tokens : List ℕ → List (List ℕ)
tokens line = let word = token (skip_blanks line) in word.0 ∷ operands 3 word.1

unfoldable pub push_bytes : ℕ → List ℕ
push_bytes reg =
    let code = 0x50 + bit_and reg 0x7 in if needs_rex reg then 0x41 ∷ code ∷ [] else code ∷ []

unfoldable pub pop_bytes : ℕ → List ℕ
pop_bytes reg =
    let code = 0x58 + bit_and reg 0x7 in if needs_rex reg then 0x41 ∷ code ∷ [] else code ∷ []

unfoldable pub mov_bytes : ℕ → ℕ → List ℕ
mov_bytes dst src =
    let rex = if needs_rex src then bit_or 0x48 0x04 else 0x48 in
    let rex' = if needs_rex dst then bit_or rex 0x01 else rex in
    rex' ∷ 0x89 ∷ make_modrm 3 src dst ∷ []

-- What `printf` tells the user of a line.
pub data Message : Type 0 where
  line_text : ℕ → List ℕ → Message
  invalid_register : ℕ → List ℕ → Message
  invalid_operands : ℕ → Message
  malformed : ℕ → List ℕ → Message

-- What a line comes to: the bytes that are put out and the errors, or a `continue` behind the
-- errors, which leaves the pointer at the line.
pub data Outcome : Type 0 where
  emitted : List ℕ → List Message → Outcome
  continued : List Message → Outcome

unfoldable pub encode_stack : (ℕ → List ℕ) → ℕ → List ℕ → Option ℕ → Outcome
encode_stack bytes line_num name none = continued (invalid_register line_num name ∷ [])
encode_stack bytes line_num name (some reg) = emitted (bytes reg) []

unfoldable pub encode_mov : ℕ → Option ℕ → Option ℕ → Outcome
encode_mov line_num (some dst) (some src) = emitted (mov_bytes dst src) []
encode_mov line_num (some dst) none = emitted [] (invalid_operands line_num ∷ [])
encode_mov line_num none src = emitted [] (invalid_operands line_num ∷ [])

abbrev pub ret_word : List ℕ
ret_word = b'r' ∷ b'e' ∷ b't' ∷ []

abbrev pub push_word : List ℕ
push_word = b'p' ∷ b'u' ∷ b's' ∷ b'h' ∷ []

abbrev pub pop_word : List ℕ
pop_word = b'p' ∷ b'o' ∷ b'p' ∷ []

abbrev pub mov_word : List ℕ
mov_word = b'm' ∷ b'o' ∷ b'v' ∷ []

unfoldable pub encode : ℕ → List (List ℕ) → Outcome
encode line_num words =
    let instr = get_or words 0 [] in
    let first = get_or words 1 [] in
    let second = get_or words 2 [] in
    if same instr ret_word
    then emitted (0xC3 ∷ []) []
    else if same instr push_word && (length words == 2)
    then encode_stack push_bytes line_num first (parse_register first)
    else if same instr pop_word && (length words == 2)
    then encode_stack pop_bytes line_num first (parse_register first)
    else if same instr mov_word && (length words == 3)
    then encode_mov line_num (parse_register first) (parse_register second)
    else emitted [] (malformed line_num instr ∷ [])

-- `line_len == 0 || line[0] == ';' || line[0] == '#'`.
unfoldable pub is_skipped : List ℕ → Bool
is_skipped [] = true
is_skipped (c ∷ line) = (c == b';') || (c == b'#')

unfoldable pub process_line : ℕ → List ℕ → Outcome
process_line line_num line = if is_skipped line then continued [] else encode line_num (tokens line)

unfoldable pub ends_line : ℕ → Bool
ends_line c = (c == 10) || (c == 13)

-- The characters up to `line_end`, and what is from there on.
unfoldable pub cut_line : List ℕ → List ℕ × List ℕ
cut_line [] = ([], [])
cut_line (c ∷ s) =
    let rest = cut_line s in if ends_line c then ([], c ∷ s) else (c ∷ rest.0, rest.1)

unfoldable pub skip_char : ℕ → List ℕ → List ℕ
skip_char k [] = []
skip_char k (c ∷ s) = if c == k then s else c ∷ s

pub record Asm : Type 0 where
  pub line_start : List ℕ
  pub line_num : ℕ
  pub output : List ℕ
  pub printed : List Message

unfoldable pub finish_line : List ℕ → Asm → Outcome → Asm
finish_line line_end a (continued messages) = record a { printed = a.printed ++ messages }
finish_line line_end a (emitted bytes messages) = record a {
  line_start = skip_char 10 (skip_char 13 line_end);
  line_num = a.line_num + 1;
  output = a.output ++ bytes;
  printed = a.printed ++ messages;
}

-- One round of `while (*line_start)`.
unfoldable pub round : Asm → Asm
round a =
    let cut = cut_line a.line_start in
    let line = take 255 cut.0 in
    let shown : Asm = record a { printed = a.printed ++ (line_text a.line_num line ∷ []) } in
    finish_line cut.1 shown (process_line a.line_num line)

-- `none` is a loop that has not ended within its fuel.
unfoldable pub assemble : ℕ → Asm → Option Asm
assemble zero a = none
assemble (suc fuel) a =
    let rest = assemble fuel (round a) in if at_end a.line_start then some a else rest

-- What the command line comes to. `unset` is a file name that is read without a value.
pub data Arguments : Type 0 where
  usage unset : Arguments
  missing : ℕ → Arguments
  files : List ℕ → List ℕ → Arguments

abbrev pub f_flag : List ℕ
f_flag = b'-' ∷ b'f' ∷ []

abbrev pub o_flag : List ℕ
o_flag = b'-' ∷ b'o' ∷ []

-- A string of `argv`, and `none` for one that is not there.
unfoldable pub both_named : List (List ℕ) → List ℕ → ℕ → (List ℕ → List ℕ → Arguments) → Arguments
both_named (prog ∷ flag ∷ first ∷ second ∷ third ∷ more) expected errcode named =
    if same second expected then named first third else missing errcode
both_named (prog ∷ flag ∷ first ∷ second ∷ []) expected errcode named =
    if same second expected then unset else missing errcode
both_named _ expected errcode named = unset

unfoldable pub parse_arguments : List (List ℕ) → Arguments
parse_arguments argv =
    let flag = get_or argv 1 [] in
    if not (leb 2 (length argv))
    then usage
    else if same flag f_flag
    then both_named argv o_flag 1 (λ i o. files i o)
    else if same flag o_flag
    then both_named argv f_flag 2 (λ o i. files i o)
    else unset
