-- ===== src/Prelude/Bits.antt =====
-- `&` and `|` with masks and shifted fields, as arithmetic. The native operations compute at
-- numerals only, so each law goes down the binary digits.
use Prim.Native.Nat.{ℕ, zero, suc, ◌+◌, ◌-◌, ◌*◌, ◌/◌, ◌%◌, ◌^◌, ◌<◌, ◌≤◌, min, max}
use Prim.Native.Nat.{bit_and, bit_or, digits, bitwise, bit_and-bitwise, bit_or-bitwise}
use mathlib.Core.Path.{◌≡◌, refl, ap}
use mathlib.Core.WellFounded
use native.Mathlib.Nat.{pow-suc, pow-succ', one-le-pow, div-one, div-div-eq-div-mul}
use native.Mathlib.Omega.{arith}
use sant_os.Prelude.Order.{lt_wf}

module _ (over : ℕ → ℕ) (op : ℕ → ℕ → ℕ) where
  -- Any two counts of digits that cover the first number give the same result.
  spare_digits : (a b k l : ℕ) → a ≤ k → a ≤ l → digits over op k a b ≡ digits over op l a b
  spare_digits a b zero zero hk hl = refl
  spare_digits zero b zero (suc l) hk hl = refl
  spare_digits zero b (suc k) zero hk hl = refl
  spare_digits zero b (suc k) (suc l) hk hl = refl
  spare_digits (suc a) b zero l hk hl = absurd (omega arith)
  spare_digits (suc a) b (suc k) zero hk hl = absurd (omega arith)
  spare_digits (suc a) b (suc k) (suc l) hk hl =
      let halves = spare_digits (suc a / 2) (b / 2) k l (omega arith) (omega arith) in
      ap (λ (t : ℕ). t * 2 + op (suc a % 2) (b % 2)) halves

  lowest_digit :
      (a b : ℕ)
      → bitwise over op (suc a) b ≡ bitwise over op (suc a / 2) (b / 2) * 2 + op (suc a % 2) (b % 2)
  lowest_digit a b =
      let h : suc a / 2 ≤ a = omega arith in
      let k : suc a / 2 ≤ suc a / 2 = omega arith in
      ap (λ (t : ℕ). t * 2 + op (suc a % 2) (b % 2)) (spare_digits (suc a / 2) (b / 2) a _ h k)

-- `&` and `|` on the lowest digit and on the rest.
and_halves : (a b : ℕ) → bit_and a b ≡ bit_and (a / 2) (b / 2) * 2 + min (a % 2) (b % 2)
and_halves zero b = simp bit_and-bitwise (omega arith)
and_halves (suc a) b = simp bit_and-bitwise (lowest_digit (λ _. 0) min a b)

or_halves : (a b : ℕ) → bit_or a b ≡ bit_or (a / 2) (b / 2) * 2 + max (a % 2) (b % 2)
or_halves zero b = simp bit_or-bitwise (omega arith)
or_halves (suc a) b = simp bit_or-bitwise (lowest_digit (λ y. y) max a b)

pub and-zero : (a : ℕ) → bit_and a 0 ≡ 0
and-zero a = WellFounded.induction lt_wf {C = λ n. bit_and n 0 ≡ 0} a λ n smaller. below n smaller
  where
    below : (n : ℕ) → ((m : ℕ) → m < n → bit_and m 0 ≡ 0) → bit_and n 0 ≡ 0
    below zero smaller = refl
    below (suc n) smaller = omega (arith, and_halves (suc n) 0, smaller (suc n / 2) (omega arith))

pub or-zero : (a : ℕ) → bit_or a 0 ≡ a
or-zero a = WellFounded.induction lt_wf {C = λ n. bit_or n 0 ≡ n} a λ n smaller. below n smaller
  where
    below : (n : ℕ) → ((m : ℕ) → m < n → bit_or m 0 ≡ m) → bit_or n 0 ≡ n
    below zero smaller = refl
    below (suc n) smaller = omega (arith, or_halves (suc n) 0, smaller (suc n / 2) (omega arith))

double_pow : (q k : ℕ) → q * 2 ^ suc k ≡ q * 2 ^ k * 2
double_pow q k = omega (arith, ap (λ (t : ℕ). q * t) (pow-suc 2 k))

-- Both operands of `|` may be exchanged.
pub zero-or : (b : ℕ) → bit_or 0 b ≡ b
zero-or b = bit_or-bitwise 0 b

pub or_comm : (a b : ℕ) → bit_or a b ≡ bit_or b a
or_comm a b =
    WellFounded.induction lt_wf {C = λ n. (m : ℕ) → bit_or n m ≡ bit_or m n} a
      (λ n smaller. below n smaller) b
  where
    below :
        (n : ℕ)
        → ((k : ℕ) → k < n → (m : ℕ) → bit_or k m ≡ bit_or m k)
        → (m : ℕ) → bit_or n m ≡ bit_or m n
    below zero smaller m = omega (arith, zero-or m, or-zero m)
    below (suc n) smaller m =
        omega (
          arith,
          or_halves (suc n) m,
          or_halves m (suc n),
          smaller (suc n / 2) (omega arith) (m / 2),
        )

-- A mask shifted by `k` reads the digits from `k` on.
pub and_shifted_mask : (k a m : ℕ) → bit_and a (m * 2 ^ k) ≡ bit_and (a / 2 ^ k) m * 2 ^ k
and_shifted_mask zero a m = ground (arith, div-one a)
and_shifted_mask (suc k) a m = ground (
  arith,
  and_halves a (m * 2 ^ suc k),
  double_pow m k,
  double_pow (bit_and (a / 2 ^ suc k) m) k,
  pow-succ' 2 k,
  div-div-eq-div-mul a 2 (2 ^ k),
  and_shifted_mask k (a / 2) m,
)

-- `k` ones keep the lowest `k` digits.
and_ones_fields : (k q r : ℕ) → r < 2 ^ k → bit_and (q * 2 ^ k + r) (2 ^ k - 1) ≡ r
and_ones_fields zero q r fits = rw and-zero (omega arith)
and_ones_fields (suc k) q r fits = ground (
  arith,
  and_halves (q * 2 ^ suc k + r) (2 ^ suc k - 1),
  double_pow q k,
  pow-suc 2 k,
  and_ones_fields k q (r / 2) (omega (arith, pow-suc 2 k)),
)

pub and_ones : (k a : ℕ) → bit_and a (2 ^ k - 1) ≡ a % 2 ^ k
and_ones k a = ground (arith, one-le-pow k 2, and_ones_fields k (a / 2 ^ k) (a % 2 ^ k))

-- `|` of fields that do not overlap is their sum.
pub or_fields : (k q r : ℕ) → r < 2 ^ k → bit_or (q * 2 ^ k) r ≡ q * 2 ^ k + r
or_fields zero q r fits = ground (arith, or-zero q)
or_fields (suc k) q r fits = ground (
  arith,
  or_halves (q * 2 ^ suc k) r,
  double_pow q k,
  pow-suc 2 k,
  or_fields k q (r / 2) (omega (arith, pow-suc 2 k)),
)

pub zero-and : (b : ℕ) → bit_and 0 b ≡ 0
zero-and b = bit_and-bitwise 0 b
