-- ===== src/Fat12/Listing/Shown.antt =====
-- Which entries `fat12_list_root` of src/fat12.c prints.
use sant_os.Prelude.{
  ℕ, Mem, Bool, true, false, ◌&&◌, ◌||◌, ◌==◌, bit_and, nonzero, ◌≡◌, arith, refl, Bool-cases, inl,
  inr, ap,
}
use sant_os.Fat12.Dir.{first_char, attributes, deleted_char}
use sant_os.Fat12.Listing.{is_hidden}

-- The listing of the root directory passes over an entry exactly when the volume label bit of
-- its attributes is set. The test for a deleted entry never holds, so deleted files are listed,
-- and the test for a long file name adds nothing to that bit.
pub is_hidden_lem :
    (buf : Mem) (idx : ℕ) → is_hidden false buf idx ≡ nonzero (bit_and (attributes buf idx) 0x08)
unfolding is_hidden
is_hidden_lem buf idx =
    let never : deleted_char (first_char buf idx) ≡ false = ground arith in
    elim (Bool-cases (attributes buf idx == 0x0F)) [
      | inr other ↦ rw (never, other) (or_false (nonzero (bit_and (attributes buf idx) 0x08)))
      | inl long_name ↦
          let e : attributes buf idx ≡ 0x0F = ground arith in
          let label : nonzero (bit_and (attributes buf idx) 0x08) ≡ true =
            ap (λ (t : ℕ). nonzero (bit_and t 0x08)) e in
          rw (never, label) refl
    ]
  where
    or_false : (b : Bool) → (b || false || (false && first_char buf idx == b'.')) ≡ b
    or_false true = refl
    or_false false = refl
