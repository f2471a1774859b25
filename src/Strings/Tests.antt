-- ===== src/Strings/Tests.antt =====
-- Tests of the model of src/string.c, and the theorems at concrete inputs.
use sant_os.Prelude.{
  ℕ, Mem, store, false, some, List, [], ◌∷◌, ◌++◌, get_or, ◌≡◌, ◌↔◌, inl, inr, arith, refl,
}
use sant_os.Prelude.Int.{ℤ, pos, below_zero}
use sant_os.Strings.{
  copy_up, copy_down, memmove, memcpy, memset, memcmp, strlen, strcmp, strcpy, strcat, strchr,
  IsString,
}
use sant_os.Strings.Blocks.{memmove_lem, memcpy_lem, memset_lem, SameBlock, memcmp_iff}
use sant_os.Strings.Length.{strlen_lem, strchr_lem}
use sant_os.Strings.Compare.{is_zero, strcmp_lem}
use sant_os.Strings.Copy.{Outside, strcpy_lem, strcat_lem}

-- "hi" at 0, "hex" at 10, and zero everywhere else.
abbrev memory : Mem
memory a = get_or (104 ∷ 105 ∷ 0 ∷ 0 ∷ 0 ∷ 0 ∷ 0 ∷ 0 ∷ 0 ∷ 0 ∷ 104 ∷ 101 ∷ 120 ∷ 0 ∷ []) a 0

abbrev hi : List ℕ
hi = 104 ∷ 105 ∷ []

abbrev hex : List ℕ
hex = 104 ∷ 101 ∷ 120 ∷ []

hi-IsString : IsString memory 0 hi
hi-IsString = (refl, omega arith, (refl, omega arith, refl))

hex-IsString : IsString memory 10 hex
hex-IsString = (refl, omega arith, (refl, omega arith, (refl, omega arith, refl)))

overlapping : (memmove 11 10 3 memory 13 ≡ 120) × (memcpy 11 10 3 memory 13 ≡ 104)
unfolding memmove memcpy copy_up copy_down store
overlapping = (refl, refl)

memmove_lem_example : memmove 11 10 3 memory 13 ≡ memory 12
memmove_lem_example = memmove_lem 11 10 3 memory 13

memcpy_lem_case : memcpy 20 10 3 memory 21 ≡ memory 11
memcpy_lem_case = memcpy_lem 20 10 3 memory 21 (inr (omega arith))

memset_lem_case : memset 4 513 3 memory 5 ≡ 1
memset_lem_case = memset_lem 4 513 3 memory 5

memcmp_iff_case : (memcmp 0 10 2 memory ≡ pos 0) ↔ SameBlock 0 10 2 memory
memcmp_iff_case = memcmp_iff 0 10 2 memory

strlen_lem_case : strlen 4 memory 10 ≡ some 3
strlen_lem_case = strlen_lem hex 4 memory 10 hex-IsString (omega arith)

strchr_lem_case : strchr 4 memory 10 120 ≡ some 12
strchr_lem_case = strchr_lem hex 4 memory 10 120 hex-IsString (omega arith)

strcmp_lem_case :
    (r : ℤ) × (strcmp 3 memory 0 10 ≡ some r) × (is_zero r ≡ false) × (below_zero r ≡ false)
strcmp_lem_case = strcmp_lem hi hex 3 memory 0 10 hi-IsString hex-IsString (omega arith)

strcpy_lem_case :
    (m' : Mem) × (strcpy 4 memory 0 10 ≡ some m')
    × IsString m' 0 hex
    × ((k : ℕ) → Outside 0 4 k → m' k ≡ memory k)
strcpy_lem_case = strcpy_lem hex 4 memory 0 10 hex-IsString (omega arith) (inl (omega arith))

strcat_lem_case :
    (m' : Mem) × (strcat 4 3 memory 0 10 ≡ some m')
    × IsString m' 0 (hi ++ hex)
    × ((k : ℕ) → Outside 0 6 k → m' k ≡ memory k)
strcat_lem_case =
    strcat_lem hi hex 4 3 memory 0 10 hi-IsString hex-IsString (omega arith) (omega arith)
      (inl (omega arith))
