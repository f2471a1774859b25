-- ===== src/Sasm/Main.antt =====
-- `main` of src/programs/sasm/sasm.c, over the calls that it makes of the user library.
use sant_os.Prelude.{
  ℕ, ◌<◌, Bool, true, false, ◌&&◌, not, Option, some, List, [], ◌∷◌, ◌++◌, ◌==◌, leb, if◌then◌else◌,
  ◌≡◌, refl, arith, length, get_or, ap, length-append,
}
use mathlib.Core.Option.{map}
use sant_os.Prelude.Tables.{holds_below, holds_at}
use sant_os.Sasm.{
  names, Asm, assemble, usage, unset, missing, files, parse_arguments, both_named, f_flag, o_flag,
}
use sant_os.Sasm.Encode.{Instr, ret, push, pop, mov, IsInstr, AllInstr, code}
use sant_os.Sasm.Lines.{line_of}
use sant_os.Sasm.Program.{source, assemble-source}

-- What the two calls of `malloc` come to, the bytes that `read_file` puts into a buffer of a
-- size, none where it fails, and the number of bytes that `write_file` returns.
pub record Host : Type 0 where
  pub input_buffer : Bool
  pub output_buffer : Bool
  pub read_file : List ℕ → ℕ → List ℕ
  pub write_file : List ℕ → List ℕ → ℕ

-- The status and the file that was to be written, or a run that reads a name without a value.
pub data Exit : Type 0 where
  exit : ℕ → Exit
  wrote : ℕ → List ℕ → List ℕ → Exit
  undefined : Exit

-- The string that begins at a buffer.
unfoldable pub c_string : List ℕ → List ℕ
c_string [] = []
c_string (c ∷ s) = if c == 0 then [] else c ∷ c_string s

unfoldable pub write_output : Host → List ℕ → Asm → Exit
write_output host output a =
    if host.write_file output a.output == length a.output
    then wrote 0 output a.output
    else wrote 1 output a.output

unfoldable pub assemble_file : ℕ → Host → List ℕ → List ℕ → Option Exit
assemble_file fuel host filename output =
    let text = host.read_file filename 65536 in
    let start : Asm = record {
      line_start = c_string text;
      line_num = 1;
      output = [];
      printed = [];
    } in
    let run = map (λ a. write_output host output a) (assemble fuel start) in
    if not host.input_buffer
    then some (exit 1)
    else if not (leb 1 (length text))
    then some (exit 1)
    else if not host.output_buffer
    then some (exit 1)
    else run

-- `none` is a run that does not end within its fuel.
unfoldable pub main : ℕ → Host → List (List ℕ) → Option Exit
main fuel host argv = elim (parse_arguments argv) [
  | usage ↦ some (exit 1)
  | missing errcode ↦ some (exit 1)
  | unset ↦ some undefined
  | files filename output ↦ assemble_file fuel host filename output
]

abbrev no_nul : List ℕ → Bool
no_nul [] = true
no_nul (c ∷ s) = not (c == 0) && no_nul s

no_nul-append : (s t : List ℕ) → no_nul s ≡ true → no_nul t ≡ true → no_nul (s ++ t) ≡ true
no_nul-append [] t hs ht = ht
no_nul-append (c ∷ s) t hs ht = ground (arith, no_nul-append s t (ground arith) ht)

c_string-whole : (s : List ℕ) → no_nul s ≡ true → c_string s ≡ s
unfolding c_string
c_string-whole [] h = refl
c_string-whole (c ∷ s) h =
    let rest = c_string-whole s (ground arith) in
    let head : (c == 0) ≡ false = ground arith in rw head (ap (λ t. c ∷ t) rest)

name_no_nul : (r : ℕ) → r < 16 → no_nul (get_or names r []) ≡ true
name_no_nul r h = holds_at (λ n. no_nul (get_or names n [])) 16 r h (unfold holds_below in refl)

line_no_nul : (i : Instr) → IsInstr i → no_nul (line_of i) ≡ true
line_no_nul ret h = refl
line_no_nul (push r) h = name_no_nul r h
line_no_nul (pop r) h = name_no_nul r h
line_no_nul (mov dst src) h =
    no_nul-append (get_or names dst []) (b',' ∷ b' ' ∷ get_or names src []) (name_no_nul dst h.0)
      (name_no_nul src h.1)

source-no_nul : (is : List Instr) → AllInstr is → no_nul (source is) ≡ true
source-no_nul [] h = refl
source-no_nul (i ∷ is) h =
    no_nul-append (line_of i) (10 ∷ source is) (line_no_nul i h.0) (source-no_nul is h.1)

source_some : (is : List Instr) → 0 < length is → leb 1 (length (source is)) ≡ true
source_some [] h = absurd (omega arith)
source_some (i ∷ is) h =
    let size = length-append (line_of i) (10 ∷ source is) in ground (arith, size)

write_output_lem :
    (host : Host) (output : List ℕ) (a : Asm) (bytes : List ℕ)
    → a.output ≡ bytes
    → host.write_file output bytes ≡ length bytes
    → write_output host output a ≡ wrote 0 output bytes
unfolding write_output
write_output_lem host output a bytes out writes =
    let all : (length bytes == length bytes) ≡ true = ground arith in rw (out, writes, all) refl

-- `sasm -f filename -o output`, where the file holds the source of a program of at least one
-- instruction, the buffers are there and `write_file` returns how many bytes it was to write: the
-- program exits with 0 and has written the code of these instructions and nothing else.
pub main-source :
    (fuel : ℕ) (host : Host) (prog filename output : List ℕ) (is : List Instr)
    → AllInstr is
    → 0 < length is
    → length is < fuel
    → host.input_buffer ≡ true
    → host.output_buffer ≡ true
    → host.read_file filename 65536 ≡ source is
    → host.write_file output (code is) ≡ length (code is)
    → main fuel host (prog ∷ f_flag ∷ filename ∷ o_flag ∷ output ∷ [])
      ≡ some (wrote 0 output (code is))
unfolding main parse_arguments both_named assemble_file write_output
main-source fuel host prog filename output is h some_instr enough buf buf' text writes =
    let whole = c_string-whole (source is) (source-no_nul is h) in
    let start : Asm = record { line_start = source is; line_num = 1; output = []; printed = [] } in
    let (a, runs, out) = assemble-source is fuel start h enough refl in
    let long = source_some is some_instr in
    rw (text, buf, buf', long, whole, runs)
      (ap some (write_output_lem host output a (code is) out writes))
