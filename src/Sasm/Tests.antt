-- ===== src/Sasm/Tests.antt =====
-- Tests of the model of src/programs/sasm/sasm.c, and the theorems at concrete inputs.
use sant_os.Prelude.{
  ℕ, ◌<◌, ◌↔◌, true, none, some, List, [], ◌∷◌, ◌++◌, ◌⊎◌, ◌≡◌, ◌≢◌, refl, arith, length, get_or,
}
use sant_os.Sasm.{
  names, make_modrm, make_rex, needs_rex, parse_register, first_named, is_blank, ends_token,
  skip_blanks, skip_separators, token, operands, tokens, push_bytes, pop_bytes, mov_bytes, encode,
  encode_stack, is_skipped, process_line, ends_line, cut_line, Asm, assemble, invalid_register,
  parse_arguments, both_named, unset, f_flag, o_flag,
}
use sant_os.Sasm.Encode.{
  Instr, ret, push, pop, mov, AllInstr, code, decode, make_modrm_lem, parse_register_lem,
  decode-code,
}
use sant_os.Sasm.Program.{source, assemble-source}
use sant_os.Sasm.Ends.{IsStuck, Ends, assemble_stuck, assemble-Ends}
use sant_os.Sasm.Stuck.{IsNoRegister, bad_pop, assemble-StopsAt}
use sant_os.Sasm.Tokens.{plain-AllPlain}
use sant_os.Sasm.Main.{Host, wrote, main, main-source}

abbrev program : List Instr
program = push 12 ∷ mov 0 9 ∷ pop 3 ∷ ret ∷ []

program-AllInstr : AllInstr program
program-AllInstr = (omega arith, ((omega arith, omega arith), (omega arith, (tt, tt))))

abbrev at_start : List ℕ → Asm
at_start s = record { line_start = s; line_num = 1; output = []; printed = [] }

assembled : code program ≡ 0x41 ∷ 0x54 ∷ 0x4C ∷ 0x89 ∷ 0xC8 ∷ 0x5B ∷ 0xC3 ∷ []
unfolding push_bytes pop_bytes mov_bytes needs_rex make_modrm
assembled = refl

full_rex : make_rex 1 1 0 1 ≡ 0x4D
unfolding make_rex
full_rex = refl

-- "pop rzz" is refused, and so is a second round.
abbrev bad : List ℕ
bad = b'p' ∷ b'o' ∷ b'p' ∷ b' ' ∷ b'r' ∷ b'z' ∷ b'z' ∷ 10 ∷ []

bad-IsStuck : IsStuck (at_start bad)
unfolding process_line is_skipped encode tokens token skip_blanks is_blank ends_token operands
    skip_separators cut_line ends_line parse_register first_named encode_stack
bad-IsStuck = record {
  more = refl;
  messages = invalid_register 1 (b'r' ∷ b'z' ∷ b'z' ∷ []) ∷ [];
  continues = refl;
}

no_output : parse_arguments ([] ∷ o_flag ∷ [] ∷ f_flag ∷ []) ≡ unset
unfolding parse_arguments both_named
no_output = refl

abbrev ready : Host
ready = record {
  input_buffer = true;
  output_buffer = true;
  read_file = λ name size. source program;
  write_file = λ name bytes. length bytes;
}

parse_register_lem_case :
    (parse_register (b'r' ∷ b'9' ∷ []) ≡ some 9)
    ↔ ((9 < 16) × (b'r' ∷ b'9' ∷ [] ≡ get_or names 9 []))
parse_register_lem_case = parse_register_lem (b'r' ∷ b'9' ∷ []) 9

make_modrm_lem_case : make_modrm 3 9 0 ≡ 0xC8
make_modrm_lem_case = make_modrm_lem 3 9 0

decode-code_example : decode 4 (code program) ≡ some program
decode-code_example = decode-code program 4 program-AllInstr (omega arith)

assemble-source_example :
    (a : Asm) × (assemble 5 (at_start (source program)) ≡ some a) × (a.output ≡ [] ++ code program)
assemble-source_example =
    assemble-source program 5 (at_start (source program)) program-AllInstr (omega arith) refl

assemble_stuck_case : assemble 1000 (at_start bad) ≡ none
assemble_stuck_case = assemble_stuck 1000 (at_start bad) bad-IsStuck

abbrev bad_name : List ℕ
bad_name = b'r' ∷ b'z' ∷ b'z' ∷ []

bad_name_not_known : (r : ℕ) → r < 16 → bad_name ≢ get_or names r []
unfolding parse_register first_named
bad_name_not_known r lt e =
    let parsed : parse_register bad_name ≡ some r = (parse_register_lem bad_name r).1 (lt, e) in
    cc parsed

bad_name-IsNoRegister : IsNoRegister bad_name
unfolding ends_token ends_line is_blank
bad_name-IsNoRegister = record {
  word = plain-AllPlain bad_name refl;
  some_char = omega arith;
  short = omega arith;
  no_register = λ r lt. bad_name_not_known r lt;
}

assemble-StopsAt_example : assemble 1000 (at_start bad) ≡ none
assemble-StopsAt_example =
    assemble-StopsAt 1000 (at_start bad) (bad_pop bad_name [] bad_name-IsNoRegister)

assemble-Ends_example : Ends 9 (at_start bad) ⊎ ((fuel : ℕ) → assemble fuel (at_start bad) ≡ none)
assemble-Ends_example = assemble-Ends (at_start bad)

main-source_example :
    main 5 ready ([] ∷ f_flag ∷ (b'a' ∷ []) ∷ o_flag ∷ (b'b' ∷ []) ∷ [])
    ≡ some (wrote 0 (b'b' ∷ []) (code program))
main-source_example =
    main-source 5 ready [] (b'a' ∷ []) (b'b' ∷ []) program program-AllInstr (omega arith)
      (omega arith) refl refl refl (ground arith)
