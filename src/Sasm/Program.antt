-- ===== src/Sasm/Program.antt =====
-- Whole sources of src/programs/sasm/sasm.c.
use sant_os.Prelude.{
  ℕ, zero, suc, ◌<◌, ◌≤◌, false, some, List, [], ◌∷◌, ◌++◌, ◌≡◌, refl, arith, length, take, ap, ◌∙◌,
  sym,
}
use mathlib.Core.List.{append_assoc, append-nil}
use sant_os.Sasm.{skip_char, Asm, finish_line, round, assemble, at_end}
use sant_os.Sasm.Encode.{Instr, ret, push, pop, mov, AllInstr, bytes_of, code}
use sant_os.Sasm.Tokens.{cut_line-append}
use sant_os.Sasm.Lines.{line_of, line_of-Assembles, Assembles}

abbrev pub source : List Instr → List ℕ
source [] = []
source (i ∷ is) = line_of i ++ (10 ∷ source is)

pub take_short : (n : ℕ) (s : List ℕ) → length s ≤ n → take n s ≡ s
take_short zero [] h = refl
take_short zero (c ∷ s) h = absurd (omega arith)
take_short (suc n) [] h = refl
take_short (suc n) (c ∷ s) h = ap (λ t. c ∷ t) (take_short n s (omega arith))

-- A round takes the first line of the source to its bytes and goes on to the next.
round-line :
    (line bytes rest : List ℕ) (a : Asm)
    → Assembles line bytes
    → a.line_start ≡ line ++ (10 ∷ rest)
    → ((round a).line_start ≡ rest) × ((round a).output ≡ a.output ++ bytes)
unfolding round finish_line skip_char
round-line line bytes rest a h at =
    let cut = cut_line-append line rest h.one_line in
    let whole = take_short 255 line h.short in
    rw (at, cut, whole, h.comes_to a.line_num) (refl, refl)

line_of_more : (i : Instr) (s : List ℕ) → at_end (line_of i ++ s) ≡ false
line_of_more ret s = refl
line_of_more (push r) s = refl
line_of_more (pop r) s = refl
line_of_more (mov dst src) s = refl

-- The program that stands in a source is put out, and the loop ends, with fuel for one round more
-- than there are instructions.
pub assemble-source :
    (is : List Instr) (fuel : ℕ) (a : Asm)
    → AllInstr is
    → length is < fuel
    → a.line_start ≡ source is
    → (a' : Asm) × (assemble fuel a ≡ some a') × (a'.output ≡ a.output ++ code is)
unfolding assemble
assemble-source is zero a h enough at = absurd (omega arith)
assemble-source [] (suc fuel) a h enough at = (a, rw at refl, sym (append-nil a.output))
assemble-source (i ∷ is) (suc fuel) a h enough at =
    let (next, put) =
      round-line (line_of i) (bytes_of i) (source is) a (line_of-Assembles i h.0) at in
    let (a', runs, out) = assemble-source is fuel (round a) h.1 (omega arith) next in
    let more : at_end a.line_start ≡ false = rw at (line_of_more i (10 ∷ source is)) in
    (
      a',
      rw more runs,
      out ∙ ap (λ o. o ++ code is) put ∙ append_assoc a.output (bytes_of i) (code is),
    )
