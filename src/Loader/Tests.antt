-- ===== src/Loader/Tests.antt =====
-- Tests of the model of src/loader.c, and the theorem at a concrete input.
use sant_os.Prelude.{
  ℕ, zero, suc, ◌+◌, ◌*◌, ◌<◌, Mem, store, inr, ◌==◌, if◌then◌else◌, ◌≡◌, refl, arith,
}
use sant_os.Strings.{copy_up, set_up}
use sant_os.Loader.{field, program_header, load_segment, load_segments, has_magic, load_elf}
use sant_os.Loader.Segments.{image, IsApart, IsTable, load_segments-image}

-- A file at 1000 with one segment, of four bytes of the file and four zeros, for 5000.
abbrev file : Mem
file a =
    if a == 1000
    then 0x7F
    else if a == 1001
    then b'E'
    else if a == 1002
    then b'L'
    else if a == 1003
    then b'F'
    else if a == 1024
    then 0x88
    else if a == 1025
    then 0x13
    else if a == 1032
    then 64
    else if a == 1056
    then 1
    else if a == 1064
    then 1
    else if a == 1072
    then 120
    else if a == 1080
    then 0x88
    else if a == 1081
    then 0x13
    else if a == 1096
    then 4
    else if a == 1104
    then 8
    else if a == 1121
    then 42
    else if a == 5006
    then 9
    else 0

entered : (load_elf 1000 file).1 ≡ 5000
unfolding load_elf has_magic field
entered = refl

loaded : (load_elf 1000 file).0 5001 ≡ 42
unfolding load_elf has_magic field load_segments load_segment program_header copy_up set_up store
loaded = refl

one_segment : (i : ℕ) → i < 1 → IsApart 1000 200 (program_header file (1064 + i * 56))
unfolding program_header field
one_segment zero h = record {
  inside = omega arith;
  apart = inr (omega arith);
  apart_zeros = inr (omega arith);
}
one_segment (suc i) h = absurd (omega arith)

file-IsTable : IsTable 1000 200 1 1064 file
file-IsTable = record { from = omega arith; fits = omega arith; segments = one_segment }

load_segments-image_example : load_segments 1000 1 1064 file 5006 ≡ image file 1000 1 1064 9 5006
load_segments-image_example = load_segments-image 1000 200 1 1064 file 5006 file-IsTable
