-- ===== src/Fat12/Dir/Filling.antt =====
-- What `fat12_create` of src/fat12.c writes into a directory sector, and what a search then finds.
use sant_os.Prelude.{
  false, ℕ, zero, suc, ◌+◌, ◌*◌, ◌%◌, ◌^◌, ◌<◌, ◌≤◌, Mem, store, true, List, [], ◌∷◌, ◌==◌, ◌≡◌,
  ◌≢◌, ◌⊎◌, inl, inr, arith, refl, ◌∙◌, Bool-cases, length,
}
use sant_os.Fat12.Table.{load16}
use sant_os.Fat12.Name.{Name83}
use sant_os.Fat12.Dir.{
  entry_at, first_char, attributes, first_cluster_low, file_size, deleted_cast, same_from, matches,
  found, scan_from, scan, put_chars, fill_entry, load32,
}
use sant_os.Fat12.Dir.Scanning.{Full83, HeadNe}

put_chars_outside :
    (s : List ℕ) (buf : Mem) (i a : ℕ) → (a < i) ⊎ (i + length s ≤ a) → put_chars s buf i a ≡ buf a
unfolding put_chars store
put_chars_outside [] buf i a h = refl
put_chars_outside (c ∷ s) buf i a h = ground (arith, put_chars_outside s (store buf i c) (i + 1) a)

-- A comparison reads the bytes of the field alone.
same_from_agree :
    (s : List ℕ) (m n : Mem) (i : ℕ)
    → ((a : ℕ) → i ≤ a → a < i + length s → m a ≡ n a)
    → same_from s m i ≡ same_from s n i
unfolding same_from
same_from_agree [] m n i h = refl
same_from_agree (c ∷ s) m n i h =
    let here : m i ≡ n i = h i (omega arith) (omega arith) in
    ground (arith, same_from_agree s m n (i + 1) (λ a p q. h a (omega arith) (omega arith)))

same_from-put_chars : (s : List ℕ) (buf : Mem) (i : ℕ) → same_from s (put_chars s buf i) i ≡ true
unfolding same_from put_chars store
same_from-put_chars [] buf i = refl
same_from-put_chars (c ∷ s) buf i = ground (
  arith,
  put_chars_outside s (store buf i c) (i + 1) i,
  same_from-put_chars s (store buf i c) (i + 1),
)

module _ (name : Name83) (cluster : ℕ) (buf : Mem) (idx : ℕ) (full : Full83 name) where
  abbrev filled : Mem
  filled = fill_entry name cluster buf idx

  abbrev named : Mem
  named = put_chars name.ext (put_chars name.stem buf (entry_at idx)) (entry_at idx + 8)

  filled_chars : (a : ℕ) → a < entry_at idx + 11 → filled a ≡ named a
  unfolding fill_entry store
  filled_chars a h = ground arith

  filled_outside : (a : ℕ) → (a < entry_at idx) ⊎ (entry_at idx + 32 ≤ a) → filled a ≡ buf a
  unfolding fill_entry store
  filled_outside a h = ground (
    arith,
    put_chars_outside name.ext (put_chars name.stem buf (entry_at idx)) (entry_at idx + 8) a,
    put_chars_outside name.stem buf (entry_at idx) a,
  )

  matches-filled : matches name filled idx ≡ true
  unfolding matches
  matches-filled =
      let e = entry_at idx in
      let stem_ok : same_from name.stem filled e ≡ true =
        same_from_agree name.stem filled (put_chars name.stem buf e) e (λ a p q. ground (
          arith,
          filled_chars a (omega arith),
          put_chars_outside name.ext (put_chars name.stem buf e) (e + 8) a,
        ))
        ∙ same_from-put_chars name.stem buf e in
      let ext_ok : same_from name.ext filled (e + 8) ≡ true =
        same_from_agree name.ext filled named (e + 8) (λ a p q. filled_chars a (omega arith))
        ∙ same_from-put_chars name.ext (put_chars name.stem buf e) (e + 8) in
      rw (stem_ok, ext_ok)

  -- The other entries of the sector read as before.
  other_entry :
      (j : ℕ)
      → j ≢ idx
      → (first_char filled j ≡ first_char buf j) × (matches name filled j ≡ matches name buf j)
  unfolding matches
  other_entry j ne =
      let apart : (a : ℕ) → j * 32 ≤ a → a < j * 32 + 32 → filled a ≡ buf a =
        λ a p q. filled_outside a (grind arith) in
      let e = entry_at j in
      let stem_ok : same_from name.stem filled e ≡ same_from name.stem buf e =
        same_from_agree name.stem filled buf e (λ a p q. apart a p (omega arith)) in
      let ext_ok : same_from name.ext filled (e + 8) ≡ same_from name.ext buf (e + 8) =
        same_from_agree name.ext filled buf (e + 8)
          (λ a p q. apart a (omega arith) (omega arith)) in
      (apart (j * 32) (omega arith) (omega arith), rw (stem_ok, ext_ok))

  fields :
      (attributes filled idx ≡ 0x20)
      × (first_cluster_low filled idx ≡ cluster % 2 ^ 16)
      × (file_size filled idx ≡ 0)
  unfolding fill_entry store load16 load32
  fields = ground arith

-- An entry that the search passes over: in use, and deleted or of another name.
abbrev pub Passed : Name83 → Mem → ℕ → Type 0
Passed name buf j =
    (first_char buf j ≢ 0) × ((first_char buf j ≡ 0xE5) ⊎ (matches name buf j ≡ false))

abbrev pub AllPassed : Name83 → Mem → ℕ → ℕ → Type 0
AllPassed name buf lo hi = (j : ℕ) → lo ≤ j → j < hi → Passed name buf j

-- A search goes on to the first entry that it does not pass over.
scan_from-hit :
    (name : Name83) (buf : Mem) (i left idx : ℕ)
    → idx ≤ i
    → i < idx + left
    → AllPassed name buf idx i
    → first_char buf i ≢ 0
    → first_char buf i ≢ 0xE5
    → matches name buf i ≡ true
    → scan_from deleted_cast name buf left idx ≡ found i
unfolding scan_from
scan_from-hit name buf i zero idx p q before nz live m = absurd (omega arith)
scan_from-hit name buf i (suc left) idx p q before nz live m = elim (Bool-cases (idx == i)) [
  | inl here ↦ let e : idx ≡ i = ground arith in rw e (ground arith)
  | inr later ↦
      let lt : idx < i = ground arith in
      let (first_nz, pass) = before idx (omega arith) lt in
      let rest =
        scan_from-hit name buf i left (idx + 1) (omega arith) (omega arith)
          (λ j a b. before j (omega arith) b) nz live m in
      elim pass [ inl del ↦ ground (arith, rest) | inr no_match ↦ ground (arith, rest) ]
]

matched_head : (s : List ℕ) (m : Mem) (i b : ℕ) → same_from s m i ≡ true → HeadNe b s → m i ≢ b
unfolding same_from
matched_head [] m i b e h = absurd h
matched_head (c ∷ s) m i b e h = ground arith

matched_first :
    (name : Name83) (m : Mem) (idx b : ℕ)
    → matches name m idx ≡ true
    → HeadNe b name.stem
    → first_char m idx ≢ b
unfolding matches
matched_first name m idx b e h = matched_head name.stem m (entry_at idx) b (ground arith) h

-- A name of a full stem and extension that begins with neither NUL nor 0xE5, written by
-- `fat12_create` into an entry before which the sector holds no entry of that name and no unused
-- one, is found there by the next search. The entry has the archive attribute, the given cluster
-- and size 0.
pub scan-fill_entry :
    (name : Name83) (cluster : ℕ) (buf : Mem) (idx : ℕ)
    → Full83 name
    → HeadNe 0 name.stem
    → HeadNe 0xE5 name.stem
    → idx < 16
    → AllPassed name buf 0 idx
    → let new = fill_entry name cluster buf idx in
      (scan deleted_cast name new ≡ found idx)
      × (attributes new idx ≡ 0x20)
      × (first_cluster_low new idx ≡ cluster % 2 ^ 16)
      × (file_size new idx ≡ 0)
unfolding scan
scan-fill_entry name cluster buf idx full no_nul live small before =
    let new = fill_entry name cluster buf idx in
    let m = matches-filled name cluster buf idx full in
    let still : AllPassed name new 0 idx = λ j p q.
      let (first, same) = other_entry name cluster buf idx full j (omega arith) in
      let old = before j p q in ground arith in
    let (kind, low, size) = fields name cluster buf idx full in
    (
      scan_from-hit name new idx 16 0 (omega arith) (omega arith) still
          (matched_first name new idx 0 m no_nul) (matched_first name new idx 0xE5 m live) m,
      kind,
      low,
      size,
    )
