-- ===== src/Fat12/Name.antt =====
-- File names in src/fat12.c: the conversion to 8.3 form that opens `fat12_open`, `fat12_create`,
-- `fat12_delete`, `fat12_update_size` and `fat12_find_entry`, and `format_filename`.
-- A C string is the list of its characters before the NUL, as bytes.
pub mod RoundTrip
use sant_os.Prelude.{
  ℕ, zero, suc, ◌-◌, Bool, true, false, ◌&&◌, List, [], ◌∷◌, ◌++◌, ltb, leb, ◌==◌, if◌then◌else◌,
  ◌≡◌, length, replicate, not, take, map,
}

-- `if (c >= 'a' && c <= 'z') c -= 32;`
unfoldable pub upcase : ℕ → ℕ
upcase c = if leb b'a' c && leb c b'z' then c - 32 else c

-- `while (filename[i] && filename[i] != '.' && j < 8)`: what is stored, and what is left.
unfoldable pub copy_stem : ℕ → List ℕ → List ℕ × List ℕ
unfolding upcase
copy_stem zero s = ([], s)
copy_stem (suc room) [] = ([], [])
copy_stem (suc room) (c ∷ s) =
    let (stem, rest) = copy_stem room s in
    if c == b'.' then ([], c ∷ s) else (upcase c ∷ stem, rest)

-- `while (filename[i] && j < 3)`
unfoldable pub copy_ext : ℕ → List ℕ → List ℕ
unfolding upcase
copy_ext zero s = []
copy_ext (suc room) [] = []
copy_ext (suc room) (c ∷ s) = upcase c ∷ copy_ext room s

-- `if (filename[i] == '.')`
unfoldable pub parse_ext : List ℕ → List ℕ
unfolding copy_ext
parse_ext [] = []
parse_ext (c ∷ s) = if c == b'.' then copy_ext 3 s else []

-- The arrays are full of spaces to begin with.
abbrev pub pad : ℕ → List ℕ → List ℕ
pad n s = s ++ replicate (n - length s) b' '

-- `char name[9]` and `char ext[4]`, without their NUL.
pub record Name83 : Type 0 where
  pub stem : List ℕ
  pub ext : List ℕ

unfoldable pub to_83 : List ℕ → Name83
unfolding copy_stem parse_ext
to_83 filename =
    let (stem, rest) = copy_stem 8 filename in
    record { stem = pad 8 stem; ext = pad 3 (parse_ext rest) }

-- `for (i = 0; i < n && field[i] != ' '; i++)` over a field of `n` characters.
unfoldable pub trim : List ℕ → List ℕ
trim [] = []
trim (c ∷ s) = if c == b' ' then [] else c ∷ trim s

-- `if (entry->extension[0] != ' ')`
unfoldable pub format_ext : List ℕ → List ℕ
unfolding trim
format_ext [] = []
format_ext (c ∷ s) = if c == b' ' then [] else b'.' ∷ trim (c ∷ s)

unfoldable pub format_filename : Name83 → List ℕ
unfolding trim format_ext
format_filename entry = trim entry.stem ++ format_ext entry.ext
