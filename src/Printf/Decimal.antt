-- ===== src/Printf/Decimal.antt =====
-- The decimal numbers that src/printf.c prints are read back by `atoi` of src/stdlib.c.
use native.Mathlib.Nat.{pow-suc}
use sant_os.Prelude.{
  ℕ, zero, suc, ◌+◌, ◌-◌, ◌*◌, ◌/◌, ◌%◌, ◌^◌, ◌<◌, ◌≤◌, Bool, true, false, ◌&&◌, some, List, [],
  ◌∷◌, ◌++◌, ◌==◌, leb, get_or, sub32, ◌≡◌, ◌≢◌, arith, refl, length, Bool-cases, inl, inr, ◌∙◌, ap,
  sym,
}
use sant_os.Prelude.Tables.{holds_below, holds_at}
use sant_os.Numbers.{isdigit, isspace, skip_space, read_digits, read_signed, atoi}
use sant_os.Numbers.Atoi.{value, AllDigits, atoi_lem, scale}
use sant_os.Printf.{digits, push_digits, print_negative, print_signed}

digit_ok : ℕ → Bool
digit_ok r = get_or digits r 0 == r + 48 && isdigit (r + 48)

digits_ok : holds_below digit_ok 10 ≡ true
unfolding holds_below digit_ok isdigit
digits_ok = refl

digit_lem : (r : ℕ) → r < 10 → (get_or digits r 0 ≡ r + 48) × (isdigit (r + 48) ≡ true)
unfolding digit_ok
digit_lem r h = let ok = holds_at digit_ok 10 r h digits_ok in ground (arith, ok)

-- The digits that are put before the ones that are there.
record Puts (num : ℕ) (later s : List ℕ) : Type 0 where
  all_digits : AllDigits s
  stands_for : value s ≡ num * 10 ^ length later + value later
  longer : length later ≤ length s
  some_digit : num ≢ 0 → length later < length s

no_more : (num : ℕ) (later : List ℕ) → num ≡ 0 → AllDigits later → Puts num later later
no_more num later e hd = record {
  all_digits = hd;
  stands_for = sym (ap (λ t. t * 10 ^ length later + value later) e ∙ omega arith);
  longer = omega arith;
  some_digit = λ ne. absurd (ne e);
}

one_more :
    (num c : ℕ) (later s : List ℕ)
    → c ≡ num % 10 + 48
    → Puts (num / 10) (c ∷ later) s
    → Puts num later s
one_more num c later s d puts =
    let n = length later in
    let back : num / 10 * 10 + num % 10 ≡ num = omega arith in
    let digit : c - 48 ≡ num % 10 = omega (arith, d) in
    let here : (c - 48) * 10 ^ n ≡ num % 10 * 10 ^ n = ap (λ t. t * 10 ^ n) digit in
    let whole : (num / 10 * 10 + num % 10) * 10 ^ n ≡ num * 10 ^ n = ap (λ t. t * 10 ^ n) back in
    let all = puts.stands_for in
    let longer = puts.longer in
    record {
      all_digits = puts.all_digits;
      stands_for = omega (arith, all, here, whole, scale (num / 10) (num % 10) n);
      longer = omega (arith, longer);
      some_digit = λ ne. omega (arith, longer);
    }

push_digits_lem :
    (left num : ℕ) (later : List ℕ)
    → num < 2 ^ left
    → AllDigits later
    → (s : List ℕ) × (push_digits 10 left num later ≡ some s) × Puts num later s
unfolding push_digits
push_digits_lem zero num later fits hd =
    let done : (num == 0) ≡ true = ground arith in
    (later, rw done refl, no_more num later (omega arith) hd)
push_digits_lem (suc left) num later fits hd = elim (Bool-cases (num == 0)) [
  | inl done ↦ (later, rw done refl, no_more num later (ground arith) hd)
  | inr more ↦
      let (d, ok) = digit_lem (num % 10) (omega arith) in
      let half : num / 10 < 2 ^ left = omega (arith, fits, pow-suc 2 left) in
      let c = get_or digits (num % 10) 0 in
      let ds : AllDigits (c ∷ later) = (rw d ok, hd) in
      let (s, runs, puts) = push_digits_lem left (num / 10) (c ∷ later) half ds in
      (s, rw more runs, one_more num c later s d puts)
]

-- The characters of a number from 1 to 2 ^ 31 - 1.
push_digits-Puts :
    (num : ℕ)
    → num ≢ 0
    → num < 2 ^ 31
    → (d : ℕ) × (ds : List ℕ) × (push_digits 10 32 num [] ≡ some (d ∷ ds))
      × AllDigits (d ∷ ds)
      × (value (d ∷ ds) ≡ num)
push_digits-Puts num nz small =
    let (s, runs, puts) = push_digits_lem 32 num [] (omega arith) tt in
    named s runs puts.all_digits (puts.stands_for ∙ omega arith) (puts.some_digit nz)
  where
    named :
        (s : List ℕ)
        → push_digits 10 32 num [] ≡ some s
        → AllDigits s
        → value s ≡ num
        → 0 < length s
        → (d : ℕ) × (ds : List ℕ) × (push_digits 10 32 num [] ≡ some (d ∷ ds))
          × AllDigits (d ∷ ds)
          × (value (d ∷ ds) ≡ num)
    named [] runs hd v pos = absurd (omega arith)
    named (d ∷ ds) runs hd v pos = (d, ds, runs, hd, v)

append-nil : (s : List ℕ) → s ++ [] ≡ s
append-nil [] = refl
append-nil (x ∷ s) = ap (x ∷◌) (append-nil s)

zero_text : atoi (b'0' ∷ []) ≡ 0
unfolding atoi skip_space read_signed read_digits isspace isdigit
zero_text = refl

-- The two texts of a number with its digits.
digits_read :
    (d : ℕ) (ds : List ℕ)
    → AllDigits (d ∷ ds)
    → value (d ∷ ds) < 2 ^ 31
    → (atoi (d ∷ ds) ≡ value (d ∷ ds)) × (atoi (b'-' ∷ d ∷ ds) ≡ (2 ^ 32 - value (d ∷ ds)) % 2 ^ 32)
digits_read d ds hd small =
    let e = append-nil (d ∷ ds) in
    let (plain, plus, minus) = atoi_lem [] ds [] d tt hd tt small in
    (ap atoi (sym e) ∙ plain, ap (λ t. atoi (b'-' ∷ t)) (sym e) ∙ minus)

-- The text that `print_signed` puts for an `int` is read back by `atoi` as that `int`, for each
-- number but the least one, -2 ^ 31; the buffer of 32 characters is large enough.
pub atoi-print_signed :
    (num : ℕ)
    → num < 2 ^ 32
    → num ≢ 2 ^ 31
    → (s : List ℕ) × (print_signed num ≡ some s) × (atoi s ≡ num)
unfolding print_signed print_negative
atoi-print_signed num word ne = elim (Bool-cases (num == 0)) [
  | inl zero_num ↦
      let e : num ≡ 0 = ground arith in (b'0' ∷ [], rw zero_num refl, zero_text ∙ sym e)
  | inr some_num ↦ elim (Bool-cases (leb (2 ^ 31) num)) [
    | inr positive ↦
        let (d, ds, runs, hd, v) = push_digits-Puts num (ground arith) (ground arith) in
        let (plain, minus) = digits_read d ds hd (ground arith) in
        (d ∷ ds, rw (some_num, positive) runs, plain ∙ v)
    | inl negative ↦
        let other = sub32 0 num in
        let (d, ds, runs, hd, v) = push_digits-Puts other (ground arith) (ground arith) in
        let (plain, minus) = digits_read d ds hd (ground arith) in
        let fits : leb (2 ^ 31) other ≡ false = ground arith in
        let text : print_negative num ≡ some (b'-' ∷ d ∷ ds) = rw (print_negative, fits, runs) in
        (b'-' ∷ d ∷ ds, rw (some_num, negative) text, minus ∙ ground arith)
  ]
]

-- For the least `int` only the minus sign is printed, which `atoi` reads as 0.
pub print_signed_least : (print_signed (2 ^ 31) ≡ some (b'-' ∷ [])) × (atoi (b'-' ∷ []) ≡ 0)
unfolding print_signed print_negative atoi skip_space read_signed read_digits isspace isdigit
print_signed_least = (refl, refl)
