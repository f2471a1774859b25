-- ===== src/Memory/E820/Largest.antt =====
-- `e820_find_largest_region` of src/memory.c finds the largest usable region above 1 MB.
use Prim.Native.Nat.{max}
use sant_os.Prelude.{
  ℕ, ◌+◌, ◌-◌, ◌^◌, ◌<◌, ◌≤◌, List, [], ◌∷◌, ◌==◌, if◌then◌else◌, ◌≡◌, ◌≢◌, ◌⊎◌, arith, refl, sym,
  ap, ◌∙◌, none, some, Bool-cases, inl, inr,
}
use mathlib.Core.Path.{subst}
use sant_os.Memory.E820.{
  Entry, Region, e820_ram, consider, largest_from, e820_find_largest_region, choose_region,
}

-- The bytes of usable memory above 1 MB in an entry.
abbrev pub usable : Entry → ℕ
usable e = if e.type == e820_ram then e.base + e.length - max e.base 0x100000 else 0

-- The map's regions end within the 64-bit address space.
abbrev pub NoWrap : List Entry → Type 0
NoWrap [] = Unit {0}
NoWrap (e ∷ es) = (e.base + e.length < 2 ^ 64) × NoWrap es

-- `r` is the usable part of one of the entries.
abbrev pub IsPartOf : Region → Entry → Type 0
IsPartOf r e =
    (e.type ≡ e820_ram) × (r.start ≡ max e.base 0x100000) × (r.start + r.size ≡ e.base + e.length)

abbrev pub FromOne : Region → List Entry → Type 0
FromOne r [] = ⊥
FromOne r (e ∷ es) = IsPartOf r e ⊎ FromOne r es

abbrev pub AtMost : ℕ → List Entry → Type 0
AtMost n [] = Unit {0}
AtMost n (e ∷ es) = (usable e ≤ n) × AtMost n es

consider_lem :
    (r : Region) (e : Entry)
    → e.base + e.length < 2 ^ 64
    → (r.size ≤ (consider r e).size)
      × (usable e ≤ (consider r e).size)
      × ((consider r e ≡ r) ⊎ IsPartOf (consider r e) e)
unfolding consider
consider_lem r e h = (ground arith, ground arith, ground arith)

largest_from_lem :
    (r : Region) (es : List Entry)
    → NoWrap es
    → (r.size ≤ (largest_from r es).size)
      × AtMost (largest_from r es).size es
      × ((largest_from r es ≡ r) ⊎ FromOne (largest_from r es) es)
unfolding largest_from
largest_from_lem r [] h = (omega arith, tt, inl refl)
largest_from_lem r (e ∷ es) h =
    let (kept, here, source) = consider_lem r e h.0 in
    let (up, rest, from) = largest_from_lem (consider r e) es h.1 in
    (
      omega (arith, kept, up),
      (omega (arith, here, up), rest),
      elim from [
        | inl same ↦ elim source [
          | inl old ↦ inl (same ∙ old)
          | inr new ↦ inr (inl (subst (λ t. IsPartOf t e) (sym same) new))
        ]
        | inr later ↦ inr (inr later)
      ],
    )

-- For a map whose regions do not wrap round: what `e820_find_largest_region` returns is the part
-- above 1 MB of one of the RAM entries, is not empty, and no entry has more usable memory above
-- 1 MB.
pub find_largest-some :
    (es : List Entry) {r : Region}
    → NoWrap es
    → e820_find_largest_region es ≡ some r
    → FromOne r es × (r.size ≢ 0) × AtMost r.size es
unfolding e820_find_largest_region
find_largest-some es {r} h found =
    let start : Region = record { start = 0; size = 0 } in
    let (up, most, from) = largest_from_lem start es h in
    elim (Bool-cases ((largest_from start es).size == 0)) [
      | inl none_left ↦ cc (rw none_left at found)
      | inr some_left ↦
          let e : largest_from start es ≡ r = cc (rw some_left at found) in
          let size_ne : r.size ≢ 0 = ground arith in
          (
            elim from [
              | inl same ↦ absurd (size_ne (ap (λ (t : Region). t.size) (sym e ∙ same)))
              | inr one ↦ subst (λ t. FromOne t es) e one
            ],
            size_ne,
            subst (λ (t : Region). AtMost t.size es) e most,
          )
    ]

-- It fails only if no entry has usable memory above 1 MB.
pub find_largest-none :
    (es : List Entry) → NoWrap es → e820_find_largest_region es ≡ none → AtMost 0 es
unfolding e820_find_largest_region
find_largest-none es h failed =
    let start : Region = record { start = 0; size = 0 } in
    let (up, most, from) = largest_from_lem start es h in
    elim (Bool-cases ((largest_from start es).size == 0)) [
      | inl none_left ↦
          let e : (largest_from start es).size ≡ 0 = ground arith in subst (λ n. AtMost n es) e most
      | inr some_left ↦ cc (rw some_left at failed)
    ]

-- Where the largest region reaches past 8 MB and lies below 4 GB, the memory that `kernel_main`
-- hands over lies within it, begins at 8 MB or above, and has at most 1 GB.
pub choose_region_within :
    (r : Region)
    → 0x800000 < r.start + r.size
    → r.start + r.size < 2 ^ 32
    → let c = choose_region r in
      (r.start ≤ c.start)
      × (0x800000 ≤ c.start)
      × (c.start + c.size ≤ r.start + r.size)
      × (c.size ≤ 0x40000000)
unfolding choose_region
choose_region_within r past below = ground arith

-- Where the largest region ends below 8 MB, the size wraps round to 1 GB, and `kernel_main` hands
-- over memory that is not there.
pub choose_region_small :
    (r : Region)
    → r.start + r.size < 0x800000
    → choose_region r ≡ record { start = 0x800000; size = 0x40000000 }
unfolding choose_region
choose_region_small r short = ground arith
