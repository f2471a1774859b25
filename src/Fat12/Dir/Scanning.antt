-- ===== src/Fat12/Dir/Scanning.antt =====
-- The search loops of src/fat12.c over one directory sector, against what they look for.
use sant_os.Prelude.{
  ℕ, zero, suc, ◌+◌, ◌<◌, ◌≤◌, Mem, true, false, List, [], ◌∷◌, ◌==◌, ◌≡◌, ◌≢◌, arith, refl,
  Bool-cases, inl, inr, ◌⊎◌, Bool, length, ap₂,
}
use mathlib.Core.Path.{subst}
use sant_os.Fat12.Name.{Name83}
use sant_os.Fat12.Files.{read_chars, entry_name}
use sant_os.Fat12.Dir.{
  entry_at, first_char, deleted_cast, deleted_char, same_from, matches, Scan, found, ended,
  next_sector, scan_from, scan,
}

-- The first character of a name.
abbrev pub HeadNe : ℕ → List ℕ → Type 0
HeadNe b [] = ⊥
HeadNe b (c ∷ s) = c ≢ b

-- An entry that matches a name begins with the name's first character.
matches-head :
    (name : Name83) (buf : Mem) (idx : ℕ)
    → HeadNe 0xE5 name.stem
    → deleted_cast (first_char buf idx) ≡ true
    → matches name buf idx ≡ false
unfolding matches
matches-head name buf idx h d = rw (go name.stem h)
  where
    go : (s : List ℕ) → HeadNe 0xE5 s → (same_from s buf (entry_at idx) ≡ false)
    go [] h = absurd h
    go (c ∷ s) h = ground arith

scan_from-deleted_char :
    (name : Name83) (buf : Mem) (left idx : ℕ)
    → HeadNe 0xE5 name.stem
    → scan_from deleted_char name buf left idx ≡ scan_from deleted_cast name buf left idx
unfolding scan_from
scan_from-deleted_char name buf zero idx h = refl
scan_from-deleted_char name buf (suc left) idx h =
    ground (arith, matches-head name buf idx h, scan_from-deleted_char name buf left (idx + 1))

-- `fat12_open` and `fat12_find_entry` compare a signed `char` with 0xE5, so they never skip a
-- deleted entry. For every name that does not begin with the character 0xE5 they find what the
-- loops with the cast to `uint8_t` find.
pub scan-deleted_char :
    (name : Name83) (buf : Mem)
    → HeadNe 0xE5 name.stem
    → scan deleted_char name buf ≡ scan deleted_cast name buf
unfolding scan
scan-deleted_char name buf h = scan_from-deleted_char name buf 16 0 h

-- An entry that the search passes over: in use, and deleted or of another name.
abbrev pub Passes : (ℕ → Bool) → Name83 → Mem → ℕ → Type 0
Passes deleted name buf j =
    (first_char buf j ≢ 0) × ((deleted (first_char buf j) ≡ true) ⊎ (entry_name buf j ≢ name))

abbrev pub AllPass : (ℕ → Bool) → Name83 → Mem → ℕ → ℕ → Type 0
AllPass deleted name buf lo hi = (j : ℕ) → lo ≤ j → j < hi → Passes deleted name buf j

-- What a search of the entries from `lo` up to `hi` means, without reference to the loops.
pub data Finds (deleted : ℕ → Bool) (name : Name83) (buf : Mem) (lo hi : ℕ) : Scan → Type 0 where
  hit :
      (i : ℕ)
      → lo ≤ i
      → i < hi
      → first_char buf i ≢ 0
      → deleted (first_char buf i) ≡ false
      → entry_name buf i ≡ name
      → AllPass deleted name buf lo i
      → Finds deleted name buf lo hi (found i)
  stop :
      (i : ℕ)
      → lo ≤ i
      → i < hi
      → first_char buf i ≡ 0
      → AllPass deleted name buf lo i
      → Finds deleted name buf lo hi ended
  miss : AllPass deleted name buf lo hi → Finds deleted name buf lo hi next_sector

-- A name has 8 characters and 3.
abbrev pub Full83 : Name83 → Type 0
Full83 name = (length name.stem ≡ 8) × (length name.ext ≡ 3)

same_from-equal :
    (s : List ℕ) (buf : Mem) (i : ℕ) → same_from s buf i ≡ true → read_chars (length s) buf i ≡ s
unfolding same_from read_chars
same_from-equal [] buf i h = refl
same_from-equal (c ∷ s) buf i h = elim (Bool-cases (c == buf i)) [
  | inl eq ↦
      let tail = same_from-equal s buf (i + 1) (rw eq at h) in
      let here : buf i ≡ c = ground arith in ap₂ (λ (x : ℕ) (xs : List ℕ). x ∷ xs) here tail
  | inr ne ↦ cc (rw ne at h)
]

same_from_self : (n : ℕ) (buf : Mem) (i : ℕ) → same_from (read_chars n buf i) buf i ≡ true
unfolding same_from read_chars
same_from_self zero buf i = refl
same_from_self (suc n) buf i =
    let here : (buf i == buf i) ≡ true = ground arith in rw here (same_from_self n buf (i + 1))

matches-equal :
    (name : Name83) (buf : Mem) (idx : ℕ)
    → Full83 name
    → matches name buf idx ≡ true
    → entry_name buf idx ≡ name
unfolding matches entry_name
matches-equal name buf idx full h =
    let stem_ok : same_from name.stem buf (entry_at idx) ≡ true = ground arith in
    let ext_ok : same_from name.ext buf (entry_at idx + 8) ≡ true = ground arith in
    let stem = rw full.0 at (same_from-equal name.stem buf (entry_at idx) stem_ok) in
    let ext = rw full.1 at (same_from-equal name.ext buf (entry_at idx + 8) ext_ok) in
    ap₂ (λ (x y : List ℕ). let n : Name83 = record { stem = x; ext = y } in n) stem ext

matches_self : (buf : Mem) (idx : ℕ) → matches (entry_name buf idx) buf idx ≡ true
unfolding matches entry_name
matches_self buf idx =
    rw (same_from_self 8 buf (entry_at idx), same_from_self 3 buf (entry_at idx + 8)) refl

differs :
    (name : Name83) (buf : Mem) (idx : ℕ) → matches name buf idx ≡ false → entry_name buf idx ≢ name
differs name buf idx h same =
    let yes = subst (λ n. matches n buf idx ≡ true) same (matches_self buf idx) in cc (yes, h)

module _ (deleted : ℕ → Bool) (name : Name83) (buf : Mem) where
  pass_first :
      (lo hi : ℕ)
      → Passes deleted name buf lo
      → AllPass deleted name buf (lo + 1) hi
      → AllPass deleted name buf lo hi
  pass_first lo hi first rest j p q = elim (Bool-cases (lo == j)) [
    | inl same ↦ let e : lo ≡ j = ground arith in subst (Passes deleted name buf) e first
    | inr later ↦ rest j (ground arith) q
  ]

  Finds-pass :
      {lo hi : ℕ} {r : Scan}
      → Passes deleted name buf lo
      → Finds deleted name buf (lo + 1) hi r
      → Finds deleted name buf lo hi r
  Finds-pass first (hit i p q a b c before) =
      hit i (omega arith) q a b c (pass_first _ i first before)
  Finds-pass first (stop i p q a before) = stop i (omega arith) q a (pass_first _ i first before)
  Finds-pass first (miss rest) = miss (pass_first _ _ first rest)

  scan_from-Finds :
      (left idx hi : ℕ)
      → Full83 name
      → idx + left ≡ hi
      → Finds deleted name buf idx hi (scan_from deleted name buf left idx)
  unfolding scan_from
  scan_from-Finds zero idx hi full e = miss (λ j p q. absurd (omega arith))
  scan_from-Finds (suc left) idx hi full e =
      let rest = scan_from-Finds left (idx + 1) hi full (omega arith) in
      elim (Bool-cases (first_char buf idx == 0)) [
        | inl z ↦
            rw z
              (stop idx (omega arith) (omega arith) (ground arith) (λ j p q. absurd (omega arith)))
        | inr nz ↦ elim (Bool-cases (deleted (first_char buf idx))) [
          | inl del ↦ rw (nz, del) (Finds-pass (ground arith, inl del) rest)
          | inr live ↦ elim (Bool-cases (matches name buf idx)) [
            | inl m ↦
                rw (nz, live, m)
                  (hit idx (omega arith) (omega arith) (ground arith) live
                    (matches-equal name buf idx full m) (λ j p q. absurd (omega arith)))
            | inr no_match ↦
                rw (nz, live, no_match)
                  (Finds-pass (ground arith, inr (differs name buf idx no_match)) rest)
          ]
        ]
      ]

-- For a name of 8 characters and 3, and whatever test the caller has for a deleted entry, the search
-- of a sector stops at the first entry that is unused, or that is in use, not deleted and has
-- exactly this name in its 11 bytes; it goes on to the next sector only if all 16 entries are in
-- use, and deleted or of another name.
pub scan-Finds :
    (deleted : ℕ → Bool) (name : Name83) (buf : Mem)
    → Full83 name
    → Finds deleted name buf 0 16 (scan deleted name buf)
unfolding scan
scan-Finds deleted name buf full = scan_from-Finds deleted name buf 16 0 16 full refl
