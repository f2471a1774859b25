-- ===== src/Fat12/Name/RoundTrip.antt =====
-- 8.3 names of src/fat12.c: what is printed parses to the same entry, and case does not matter.
use sant_os.Prelude.{
  ℕ, zero, suc, ◌-◌, ◌≤◌, List, [], ◌∷◌, ◌++◌, ◌≡◌, ◌≢◌, length, replicate, map, arith, refl,
  length-append, length-replicate,
}
use sant_os.Fat12.Name.{
  upcase, copy_stem, copy_ext, parse_ext, pad, Name83, to_83, trim, format_ext, format_filename,
}

-- A character that is stored as it is typed: no space and no small letter.
abbrev pub IsStored : ℕ → Type 0
IsStored c = (c ≢ b' ') × (upcase c ≡ c)

abbrev pub AllStored : List ℕ → Type 0
AllStored [] = Unit {0}
AllStored (c ∷ s) = IsStored c × AllStored s

abbrev pub NoDot : List ℕ → Type 0
NoDot [] = Unit {0}
NoDot (c ∷ s) = (c ≢ b'.') × NoDot s

-- The entry with the given characters before the spaces.
abbrev pub padded : List ℕ → List ℕ → Name83
padded stem ext = record { stem = pad 8 stem; ext = pad 3 ext }

upcase_idem : (c : ℕ) → upcase (upcase c) ≡ upcase c
unfolding upcase
upcase_idem c = ground arith

trim-spaces : (n : ℕ) → trim (replicate n b' ') ≡ []
unfolding trim
trim-spaces zero = refl
trim-spaces (suc n) = refl

trim-append : (s : List ℕ) (n : ℕ) → AllStored s → trim (s ++ replicate n b' ') ≡ s
unfolding trim
trim-append [] n h = trim-spaces n
trim-append (c ∷ s) n h = ground (arith, trim-append s n h.1)

format-padded :
    (s : List ℕ) → AllStored s → format_ext (pad 3 s) ≡ elim s [ [] ↦ [] | c ∷ r ↦ b'.' ∷ c ∷ r ]
unfolding format_ext
format-padded [] h = refl
format-padded (c ∷ s) h = ground (arith, trim-append (c ∷ s) (3 - length (c ∷ s)) h)

-- The first loop stops at a dot, at the end, or when the field is full.
copy_stem-append :
    (room : ℕ) (s rest : List ℕ)
    → AllStored s
    → NoDot s
    → length s ≤ room
    → copy_stem room (s ++ b'.' ∷ rest) ≡ (s, b'.' ∷ rest)
unfolding copy_stem
copy_stem-append zero [] rest h d l = refl
copy_stem-append zero (c ∷ s) rest h d l = absurd (omega arith)
copy_stem-append (suc room) [] rest h d l = refl
copy_stem-append (suc room) (c ∷ s) rest h d l =
    ground (arith, copy_stem-append room s rest h.1 d.1 (omega arith))

copy_stem_all :
    (room : ℕ) (s : List ℕ)
    → AllStored s
    → NoDot s
    → length s ≤ room
    → copy_stem room (s ++ []) ≡ (s, [])
unfolding copy_stem
copy_stem_all zero [] h d l = refl
copy_stem_all zero (c ∷ s) h d l = absurd (omega arith)
copy_stem_all (suc room) [] h d l = refl
copy_stem_all (suc room) (c ∷ s) h d l = ground (arith, copy_stem_all room s h.1 d.1 (omega arith))

copy_ext_all : (room : ℕ) (s : List ℕ) → AllStored s → length s ≤ room → copy_ext room s ≡ s
unfolding copy_ext
copy_ext_all zero [] h l = refl
copy_ext_all zero (c ∷ s) h l = absurd (omega arith)
copy_ext_all (suc room) [] h l = refl
copy_ext_all (suc room) (c ∷ s) h l = ground (arith, copy_ext_all room s h.1 (omega arith))

parse_ext_all : (s : List ℕ) → AllStored s → length s ≤ 3 → parse_ext (b'.' ∷ s) ≡ s
unfolding parse_ext
parse_ext_all s h l = copy_ext_all 3 s h l

to_83_parts :
    (s : List ℕ) {stem rest ext : List ℕ}
    → copy_stem 8 s ≡ (stem, rest)
    → parse_ext rest ≡ ext
    → to_83 s ≡ padded stem ext
unfolding to_83
to_83_parts s e f = rw (e, f)

module _ (stem : List ℕ) (h : AllStored stem) (d : NoDot stem) (l : length stem ≤ 8) where
  -- The name that `format_filename` prints for a well-formed directory entry is converted back
  -- to that entry. Well-formed: a stem of at most 8 characters and an extension of at most 3,
  -- without spaces and small letters, and no dot in the stem.
  pub to_83-format_filename :
      (ext : List ℕ)
      → AllStored ext
      → length ext ≤ 3
      → to_83 (format_filename (padded stem ext)) ≡ padded stem ext
  unfolding format_filename parse_ext
  to_83-format_filename [] he le =
      rw (trim-append stem (8 - length stem) h)
        (to_83_parts (stem ++ []) (copy_stem_all 8 stem h d l) refl)
  to_83-format_filename (c ∷ ext) he le =
      rw (trim-append stem (8 - length stem) h, format-padded (c ∷ ext) he)
        (to_83_parts (stem ++ b'.' ∷ c ∷ ext) (copy_stem-append 8 stem (c ∷ ext) h d l)
          (parse_ext_all (c ∷ ext) he le))

-- Names that differ in the case of letters are one name.
copy_stem-map :
    (room : ℕ) (s : List ℕ)
    → copy_stem room (map upcase s) ≡ ((copy_stem room s).0, map upcase (copy_stem room s).1)
unfolding copy_stem
copy_stem-map zero s = refl
copy_stem-map (suc room) [] = refl
copy_stem-map (suc room) (c ∷ s) = ground (arith, copy_stem-map room s)

copy_ext-map : (room : ℕ) (s : List ℕ) → copy_ext room (map upcase s) ≡ copy_ext room s
unfolding copy_ext
copy_ext-map zero s = refl
copy_ext-map (suc room) [] = refl
copy_ext-map (suc room) (c ∷ s) = ground (arith, copy_ext-map room s, upcase_idem c)

parse_ext-map : (s : List ℕ) → parse_ext (map upcase s) ≡ parse_ext s
unfolding parse_ext
parse_ext-map [] = refl
parse_ext-map (c ∷ s) = ground (arith, copy_ext-map 3 s)

-- The conversion does not depend on the case of the letters.
pub to_83-map : (s : List ℕ) → to_83 (map upcase s) ≡ to_83 s
unfolding to_83
to_83-map s = rw (copy_stem-map 8 s, parse_ext-map (copy_stem 8 s).1)

-- Both fields are full, whatever the name.
copy_stem_length : (room : ℕ) (s : List ℕ) → length (copy_stem room s).0 ≤ room
unfolding copy_stem
copy_stem_length zero s = omega arith
copy_stem_length (suc room) [] = omega arith
copy_stem_length (suc room) (c ∷ s) = ground (arith, copy_stem_length room s)

copy_ext_length : (room : ℕ) (s : List ℕ) → length (copy_ext room s) ≤ room
unfolding copy_ext
copy_ext_length zero s = omega arith
copy_ext_length (suc room) [] = omega arith
copy_ext_length (suc room) (c ∷ s) = omega (arith, copy_ext_length room s)

parse_ext_length : (s : List ℕ) → length (parse_ext s) ≤ 3
unfolding parse_ext
parse_ext_length [] = omega arith
parse_ext_length (c ∷ s) = ground (arith, copy_ext_length 3 s)

length-pad : (n : ℕ) (s : List ℕ) → length s ≤ n → length (pad n s) ≡ n
length-pad n s h = omega (
  arith,
  length-append s (replicate (n - length s) b' '),
  length-replicate {A = ℕ} (n - length s) b' ',
)

-- The two arrays are written within their bounds, and are full of characters or spaces.
pub to_83_lengths : (s : List ℕ) → (length (to_83 s).stem ≡ 8) × (length (to_83 s).ext ≡ 3)
unfolding to_83
to_83_lengths s =
    (length-pad 8 _ (copy_stem_length 8 s), length-pad 3 _ (parse_ext_length (copy_stem 8 s).1))
