-- ===== src/Loader/Segments.antt =====
-- The memory that the segments of src/loader.c leave.
use sant_os.Prelude.{
  ℕ, zero, suc, ◌+◌, ◌-◌, ◌*◌, ◌<◌, ◌≤◌, Mem, ◌&&◌, ◌==◌, ltb, leb, if◌then◌else◌, ◌≡◌, refl, arith,
  ap, ◌∙◌, ◌⊎◌, inl, inr, Bool-cases, subst,
}
use sant_os.Strings.{copy_up}
use sant_os.Strings.Blocks.{copy_up_lem, set_up_lem}
use sant_os.Loader.{field, ProgramHeader, program_header, load_segment, load_segments}

-- What a segment makes of a byte that was `old`: a byte of the file, 0 behind these, or `old`.
abbrev pub segment_byte : Mem → ℕ → ProgramHeader → ℕ → ℕ → ℕ
segment_byte m elf h old a =
    if h.p_type == 1
    then if leb h.p_vaddr a && ltb a (h.p_vaddr + h.p_filesz)
      then m (elf + h.p_offset + (a - h.p_vaddr))
      else if leb (h.p_vaddr + h.p_filesz) a && ltb a (h.p_vaddr + h.p_memsz)
      then 0
      else old
    else old

-- What a table of segments makes of it, where a later segment lies over an earlier one.
abbrev pub image : Mem → ℕ → ℕ → ℕ → ℕ → ℕ → ℕ
image m elf zero ph old a = old
image m elf (suc left) ph old a =
    image m elf left (ph + 56) (segment_byte m elf (program_header m ph) old a) a

-- A segment lies outside of the buffer with the file, in which its bytes are.
pub record IsApart (elf size : ℕ) (h : ProgramHeader) : Type 0 where
  pub inside : h.p_offset + h.p_filesz ≤ size
  pub apart : (h.p_vaddr + h.p_filesz ≤ elf) ⊎ (elf + size ≤ h.p_vaddr)
  pub apart_zeros : (h.p_vaddr + h.p_memsz ≤ elf) ⊎ (elf + size ≤ h.p_vaddr)

load_segment_lem :
    (elf size : ℕ) (h : ProgramHeader) (m : Mem) (a : ℕ)
    → IsApart elf size h
    → load_segment elf h m a ≡ segment_byte m elf h (m a) a
unfolding load_segment
load_segment_lem elf size h m a ok =
    let inside = ok.inside in
    let apart = ok.apart in
    let s = elf + h.p_offset in
    let copied = copy_up_lem h.p_vaddr s h.p_filesz 0 m a (ground arith) in
    let zeroed =
      set_up_lem h.p_vaddr 0 (h.p_memsz - h.p_filesz) h.p_filesz
        (copy_up h.p_vaddr s h.p_filesz 0 m) a in
    elim (Bool-cases (h.p_type == 1)) [
      | inr other ↦ rw other refl
      | inl loads ↦ rw (loads, zeroed, copied) (ground arith)
    ]

-- The bytes of the file are the same.
abbrev Same : ℕ → ℕ → Mem → Mem → Type 0
Same elf size m m' = (k : ℕ) → elf ≤ k → k < elf + size → m' k ≡ m k

load_segment-Same :
    (elf size : ℕ) (h : ProgramHeader) (m : Mem)
    → IsApart elf size h
    → Same elf size m (load_segment elf h m)
load_segment-Same elf size h m ok k lo hi =
    let inside = ok.inside in
    let apart = ok.apart in
    let zeros = ok.apart_zeros in load_segment_lem elf size h m k ok ∙ ground arith

field-Same :
    (elf size n : ℕ) (m m' : Mem) (a : ℕ)
    → Same elf size m m'
    → elf ≤ a
    → a + n ≤ elf + size
    → field n m' a ≡ field n m a
unfolding field
field-Same elf size zero m m' a same lo hi = refl
field-Same elf size (suc n) m m' a same lo hi =
    rw
      (same a lo (omega arith), field-Same elf size n m m' (a + 1) same (omega arith) (omega arith))
      refl

program_header-Same :
    (elf size : ℕ) (m m' : Mem) (ph : ℕ)
    → Same elf size m m'
    → elf ≤ ph
    → ph + 56 ≤ elf + size
    → program_header m' ph ≡ program_header m ph
unfolding program_header
program_header-Same elf size m m' ph same lo hi =
    let f = λ (n : ℕ) (a : ℕ) (l : elf ≤ a) (h : a + n ≤ elf + size).
      field-Same elf size n m m' a same l h in
    rw
      (
        f 4 ph lo (omega arith),
        f 8 (ph + 8) (omega arith) (omega arith),
        f 8 (ph + 16) (omega arith) (omega arith),
        f 8 (ph + 32) (omega arith) (omega arith),
        f 8 (ph + 40) (omega arith) (omega arith),
      )
      refl

-- The table lies in the file, and so do the bytes of its segments, which go outside of the file's
-- buffer.
pub record IsTable (elf size left ph : ℕ) (m : Mem) : Type 0 where
  pub from : elf ≤ ph
  pub fits : ph + left * 56 ≤ elf + size
  pub segments : (i : ℕ) → i < left → IsApart elf size (program_header m (ph + i * 56))

later :
    (elf size left ph : ℕ) (m : Mem)
    → IsTable elf size (suc left) ph m
    → IsTable elf size left (ph + 56) m
later elf size left ph m table =
    let from = table.from in
    let fits = table.fits in
    record {
      from = omega arith;
      fits = omega arith;
      segments = λ i inside.
          let next : ph + suc i * 56 ≡ ph + 56 + i * 56 = omega arith in
          subst (λ p. IsApart elf size (program_header m p)) next
            (table.segments (suc i) (omega arith));
    }

segment_byte-Same :
    (elf size : ℕ) (h : ProgramHeader) (m m' : Mem) (old a : ℕ)
    → IsApart elf size h
    → Same elf size m m'
    → segment_byte m' elf h old a ≡ segment_byte m elf h old a
segment_byte-Same elf size h m m' old a apart same =
    let inside = apart.inside in
    elim (Bool-cases (leb h.p_vaddr a && ltb a (h.p_vaddr + h.p_filesz))) [
      | inr outside ↦ rw outside refl
      | inl within ↦
          let byte = same (elf + h.p_offset + (a - h.p_vaddr)) (omega arith) (ground arith) in
          rw (within, byte) refl
    ]

-- `m0` is the memory before the first of the segments.
segments_image :
    (elf size left ph : ℕ) (m0 m : Mem) (a : ℕ)
    → IsTable elf size left ph m0
    → Same elf size m0 m
    → load_segments elf left ph m a ≡ image m0 elf left ph (m a) a
unfolding load_segments
segments_image elf size zero ph m0 m a table same = refl
segments_image elf size (suc left) ph m0 m a table same =
    let h0 = program_header m0 ph in
    let from = table.from in
    let fits = table.fits in
    let header = program_header-Same elf size m0 m ph same from (omega arith) in
    let first : ph + 0 * 56 ≡ ph = omega arith in
    let apart =
      subst (λ p. IsApart elf size (program_header m0 p)) first (table.segments 0 (omega arith)) in
    let m1 = load_segment elf h0 m in
    let same1 : Same elf size m0 m1 =
      λ k lo hi. load_segment-Same elf size h0 m apart k lo hi ∙ same k lo hi in
    let rest =
      segments_image elf size left (ph + 56) m0 m1 a (later elf size left ph m0 table) same1 in
    let byte =
      load_segment_lem elf size h0 m a apart
      ∙ segment_byte-Same elf size h0 m0 m (m a) a apart same in
    ap (λ h. load_segments elf left (ph + 56) (load_segment elf h m) a) header
    ∙ rest
    ∙ ap (λ b. image m0 elf left (ph + 56) b a) byte

-- Where the table of program headers and the bytes of the segments are in the file, and no segment
-- goes to the buffer with the file, the loop over the segments leaves in each byte of the memory
-- what the last segment over it says: a byte of the file, or 0 behind these, and a byte with no
-- segment over it is as it was.
pub load_segments-image :
    (elf size left ph : ℕ) (m : Mem) (a : ℕ)
    → IsTable elf size left ph m
    → load_segments elf left ph m a ≡ image m elf left ph (m a) a
load_segments-image elf size left ph m a table =
    segments_image elf size left ph m m a table (λ k lo hi. refl)
