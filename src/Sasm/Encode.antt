-- ===== src/Sasm/Encode.antt =====
-- The instructions that src/programs/sasm/sasm.c puts out, and a disassembler for them.
use sant_os.Prelude.{
  ℕ, zero, suc, ◌+◌, ◌-◌, ◌*◌, ◌/◌, ◌%◌, ◌^◌, ◌<◌, ◌≤◌, Bool, true, false, ◌&&◌, Option, none, some,
  List, [], ◌∷◌, ◌++◌, ◌==◌, ltb, leb, if◌then◌else◌, ◌≡◌, refl, arith, length, get_or, bit_and,
  subst, Bool-cases, inl, inr, ap, ◌∙◌, ◌↔◌,
}
use mathlib.Core.Option.{map}
use sant_os.Prelude.Bits.{and_ones, or_fields}
use sant_os.Prelude.Tables.{holds_below, holds_at}
use sant_os.Strings.Compare.{same}
use sant_os.Sasm.{
  make_modrm, needs_rex, names, first_named, parse_register, push_bytes, pop_bytes, mov_bytes,
}

-- Each of the three fields of the ModR/M byte stands in its bits.
pub make_modrm_lem : (mode reg rm : ℕ) → make_modrm mode reg rm ≡ mode * 64 + reg % 8 * 8 + rm % 8
unfolding make_modrm
make_modrm_lem mode reg rm =
    let fields = or_fields 6 mode (reg % 8 * 2 ^ 3) (omega arith) in
    let low = or_fields 3 (mode * 8 + reg % 8) (rm % 8) (omega arith) in
    let high : mode * 2 ^ 6 + reg % 8 * 2 ^ 3 ≡ (mode * 8 + reg % 8) * 2 ^ 3 = omega arith in
    rw (and_ones 3 reg, and_ones 3 rm, fields, high, low) (omega arith)

pub data Instr : Type 0 where
  ret : Instr
  push pop : ℕ → Instr
  mov : ℕ → ℕ → Instr

-- The registers of an instruction are among the sixteen.
abbrev pub IsInstr : Instr → Type 0
IsInstr ret = Unit {0}
IsInstr (push r) = r < 16
IsInstr (pop r) = r < 16
IsInstr (mov dst src) = (dst < 16) × (src < 16)

abbrev pub bytes_of : Instr → List ℕ
bytes_of ret = 0xC3 ∷ []
bytes_of (push r) = push_bytes r
bytes_of (pop r) = pop_bytes r
bytes_of (mov dst src) = mov_bytes dst src

-- The processor's reading of the bytes: a prefix 0x41 adds 8 to the register of a push or a pop,
-- a prefix 0x48 has further bits for the two registers of a 64-bit move.
abbrev pub stack_instr : ℕ → List ℕ → Option (Instr × List ℕ)
stack_instr base [] = none
stack_instr base (b ∷ rest) =
    if leb 0x50 b && ltb b 0x58
    then some (push (base + (b - 0x50)), rest)
    else if leb 0x58 b && ltb b 0x60
    then some (pop (base + (b - 0x58)), rest)
    else none

abbrev pub move_instr : ℕ → List ℕ → Option (Instr × List ℕ)
move_instr rex (op ∷ modrm ∷ rest) =
    let src = modrm / 8 % 8 + rex / 4 % 2 * 8 in
    let dst = modrm % 8 + rex % 2 * 8 in
    if op == 0x89 && (modrm / 64 == 3) && (rex / 2 % 2 == 0) then some (mov dst src, rest) else none
move_instr rex _ = none

abbrev pub decode_one : List ℕ → Option (Instr × List ℕ)
decode_one [] = none
decode_one (b ∷ rest) =
    if b == 0xC3
    then some (ret, rest)
    else if b == 0x41
    then stack_instr 8 rest
    else if leb 0x48 b && ltb b 0x50
    then move_instr (b - 0x48) rest
    else stack_instr 0 (b ∷ rest)

push_one :
    (r : ℕ) (rest : List ℕ) → r < 16 → decode_one (push_bytes r ++ rest) ≡ some (push r, rest)
unfolding push_bytes needs_rex
push_one r rest h = rw (and_ones 3 r) (ground arith)

pop_one : (r : ℕ) (rest : List ℕ) → r < 16 → decode_one (pop_bytes r ++ rest) ≡ some (pop r, rest)
unfolding pop_bytes needs_rex
pop_one r rest h = rw (and_ones 3 r) (ground arith)

mov_one :
    (dst src : ℕ) (rest : List ℕ)
    → dst < 16
    → src < 16
    → decode_one (mov_bytes dst src ++ rest) ≡ some (mov dst src, rest)
unfolding mov_bytes needs_rex
mov_one dst src rest hd hs = rw (make_modrm_lem 3 src dst) (ground arith)

-- Every instruction of the assembler is read back from its bytes, whatever stands behind them.
pub decode_one-bytes_of :
    (i : Instr) (rest : List ℕ) → IsInstr i → decode_one (bytes_of i ++ rest) ≡ some (i, rest)
decode_one-bytes_of ret rest h = refl
decode_one-bytes_of (push r) rest h = push_one r rest h
decode_one-bytes_of (pop r) rest h = pop_one r rest h
decode_one-bytes_of (mov dst src) rest h = mov_one dst src rest h.0 h.1

same_refl : (s : List ℕ) → same s s ≡ true
same_refl [] = refl
same_refl (c ∷ s) = ground (arith, same_refl s)

pub same→≡ : (s t : List ℕ) → same s t ≡ true → s ≡ t
same→≡ [] [] h = refl
same→≡ [] (d ∷ t) h = absurd (ground arith)
same→≡ (c ∷ s) [] h = absurd (ground arith)
same→≡ (c ∷ s) (d ∷ t) h =
    let eq : c ≡ d = ground arith in let rest = same→≡ s t (ground arith) in cc (eq, rest)

first_named_lem :
    (ns : List (List ℕ)) (k : ℕ) (s : List ℕ) {r : ℕ}
    → first_named ns k s ≡ some r
    → (i : ℕ) × (r ≡ k + i) × (i < length ns) × (s ≡ get_or ns i [])
unfolding first_named
first_named_lem [] k s h = absurd (ground arith)
first_named_lem (n ∷ ns) k s h = elim (Bool-cases (same s n)) [
  | inl eq ↦ (0, ground arith, omega arith, same→≡ s n eq)
  | inr ne ↦
      let (i, at, inside, named) = first_named_lem ns (k + 1) s (rw ne at h) in
      (suc i, omega arith, omega arith, named)
]

-- Whether the name that stands for a number is parsed as that number.
abbrev parses : ℕ → Bool
parses r = elim (parse_register (get_or names r [])) [ none ↦ false | some n ↦ n == r ]

pub parse_register-names : (r : ℕ) → r < 16 → parse_register (get_or names r []) ≡ some r
unfolding parse_register first_named
parse_register-names r h =
    let table = holds_at parses 16 r h (unfold holds_below in refl) in ground (arith, table)

-- `parse_register` knows the sixteen names and gives each its own number, and no other word.
pub parse_register_lem :
    (s : List ℕ) (r : ℕ) → (parse_register s ≡ some r) ↔ ((r < 16) × (s ≡ get_or names r []))
parse_register_lem s r = (
  λ h.
      let found : first_named names 0 s ≡ some r = unfold parse_register in h in
      let (i, at, inside, is_named) = first_named_lem names 0 s found in
      let same_place : i ≡ r = omega arith in
      (omega arith, subst (λ n. s ≡ get_or names n []) same_place is_named),
  λ h. ap parse_register h.1 ∙ parse_register-names r h.0,
)

abbrev pub followed : Option (Instr × List ℕ) → (List ℕ → Option (List Instr)) → Option (List Instr)
followed none rest = none
followed (some found) rest = map (λ is. found.0 ∷ is) (rest found.1)

-- The disassembly of a whole output, with fuel for each of its instructions.
abbrev pub decode : ℕ → List ℕ → Option (List Instr)
decode fuel [] = some []
decode zero (b ∷ bytes) = none
decode (suc fuel) (b ∷ bytes) = followed (decode_one (b ∷ bytes)) (λ rest. decode fuel rest)

abbrev pub AllInstr : List Instr → Type 0
AllInstr [] = Unit {0}
AllInstr (i ∷ is) = IsInstr i × AllInstr is

abbrev pub code : List Instr → List ℕ
code [] = []
code (i ∷ is) = bytes_of i ++ code is

bytes_of-starts : (i : Instr) → (b : ℕ) × (bytes : List ℕ) × (bytes_of i ≡ b ∷ bytes)
unfolding push_bytes pop_bytes mov_bytes
bytes_of-starts ret = (_, _, refl)
bytes_of-starts (push r) = elim (Bool-cases (needs_rex r)) [
  | inl high ↦ (0x41, (0x50 + bit_and r 0x7) ∷ [], rw high refl)
  | inr low ↦ (0x50 + bit_and r 0x7, [], rw low refl)
]
bytes_of-starts (pop r) = elim (Bool-cases (needs_rex r)) [
  | inl high ↦ (0x41, (0x58 + bit_and r 0x7) ∷ [], rw high refl)
  | inr low ↦ (0x58 + bit_and r 0x7, [], rw low refl)
]
bytes_of-starts (mov dst src) = (_, _, refl)

-- The disassembly of assembled instructions gives the instructions.
pub decode-code :
    (is : List Instr) (fuel : ℕ) → AllInstr is → length is ≤ fuel → decode fuel (code is) ≡ some is
decode-code [] zero h enough = refl
decode-code [] (suc fuel) h enough = refl
decode-code (i ∷ is) zero h enough = absurd (omega arith)
decode-code (i ∷ is) (suc fuel) h enough =
    let (b, bytes, starts) = bytes_of-starts i in
    let whole : bytes_of i ++ code is ≡ b ∷ bytes ++ code is = ap (λ s. s ++ code is) starts in
    let one = decode_one-bytes_of i (code is) h.0 in
    let one' : decode_one (b ∷ bytes ++ code is) ≡ some (i, code is) = rw whole at one in
    let rest = decode-code is fuel h.1 (omega arith) in
    let spread : decode (suc fuel) (code (i ∷ is)) ≡ decode (suc fuel) (b ∷ bytes ++ code is) =
      ap (decode (suc fuel)) whole in
    spread ∙ rw (one', rest) refl
