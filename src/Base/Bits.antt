-- ===== src/Base/Bits.antt =====
-- Masks, shifts and flags of the wire format as arithmetic.
use Prim.Native.Nat.{
  ℕ, zero, suc, ◌+◌, ◌-◌, ◌*◌, ◌/◌, ◌%◌, ◌^◌, ◌≤◌, ◌<◌, min, max, bit_and, bit_or, digits,
  bit_and-bitwise, bit_or-bitwise, bit_xor, bit_xor-bitwise, differ,
}
use mathlib.Core.Path.{◌≡◌, refl, ap, ap₂, sym, ◌∙◌}
use native.Mathlib.Omega.{arith}
use native.Mathlib.Nat.{pow-suc, one-le-pow, mul-one, div-add-mod}

-- The fuel of the digit recursion does not matter once it is at least the first number.
and_fuel :
    (n m a b : ℕ) → a ≤ n → a ≤ m → digits (λ b. zero) min n a b ≡ digits (λ b. zero) min m a b
and_fuel zero zero a b p q = refl
and_fuel zero (suc m) zero b p q = refl
and_fuel zero (suc m) (suc a) b p q = absurd (omega arith)
and_fuel (suc n) zero zero b p q = refl
and_fuel (suc n) zero (suc a) b p q = absurd (omega arith)
and_fuel (suc n) (suc m) zero b p q = refl
and_fuel (suc n) (suc m) (suc a) b p q =
    omega (arith, and_fuel n m (suc a / 2) (b / 2) (omega arith) (omega arith))

zero-bit_and : (b : ℕ) → bit_and 0 b ≡ 0
zero-bit_and b = bit_and-bitwise 0 b

and_lowest : (a b : ℕ) → bit_and a b ≡ bit_and (a / 2) (b / 2) * 2 + min (a % 2) (b % 2)
and_lowest zero b = omega (arith, zero-bit_and b, zero-bit_and (b / 2))
and_lowest (suc a) b = omega (
  arith,
  bit_and-bitwise (suc a) b,
  bit_and-bitwise (suc a / 2) (b / 2),
  and_fuel a (suc a / 2) (suc a / 2) (b / 2) (omega arith) (omega arith),
)

and-zero_fuel : (n a : ℕ) → a ≤ n → bit_and a 0 ≡ 0
and-zero_fuel n zero h = refl
and-zero_fuel zero (suc a) h = absurd (omega arith)
and-zero_fuel (suc n) (suc a) h =
    omega (arith, and_lowest (suc a) 0, and-zero_fuel n (suc a / 2) (omega arith))

bit_and-zero : (a : ℕ) → bit_and a 0 ≡ 0
bit_and-zero a = and-zero_fuel a a (omega arith)

double-pow : (q k : ℕ) → q * 2 ^ suc k ≡ 2 * (q * 2 ^ k)
double-pow q k = omega (arith, ap (λ (t : ℕ). q * t) (pow-suc 2 k))

-- A mask that stands `k` places up reads the number from there on.
high_of : (k m q r : ℕ) → r < 2 ^ k → bit_and (q * 2 ^ k + r) (m * 2 ^ k) ≡ bit_and q m * 2 ^ k
high_of zero m q r fits =
    ap₂ bit_and (let e : q * 1 + r ≡ q = omega arith in e) (mul-one m) ∙ sym (mul-one (bit_and q m))
high_of (suc k) m q r fits = ground (
  arith,
  and_lowest (q * 2 ^ suc k + r) (m * 2 ^ suc k),
  double-pow q k,
  double-pow m k,
  double-pow (bit_and q m) k,
  high_of k m q (r / 2) (omega arith),
)

-- A mask of `k` low bits.
low_of : (k q r : ℕ) → r < 2 ^ k → bit_and (q * 2 ^ k + r) (2 ^ k - 1) ≡ r
low_of zero q r fits = rw bit_and-zero (omega arith)
low_of (suc k) q r fits = ground (
  arith,
  and_lowest (q * 2 ^ suc k + r) (2 ^ suc k - 1),
  double-pow q k,
  pow-suc 2 k,
  low_of k q (r / 2) (omega arith),
)

pub bit_and_low : (k a : ℕ) → bit_and a (2 ^ k - 1) ≡ a % 2 ^ k
bit_and_low k a = ground (arith, one-le-pow k 2, low_of k (a / 2 ^ k) (a % 2 ^ k))

pub bit_and_high : (k m a : ℕ) → bit_and a (m * 2 ^ k) ≡ bit_and (a / 2 ^ k) m * 2 ^ k
bit_and_high k m a = ground (arith, one-le-pow k 2, high_of k m (a / 2 ^ k) (a % 2 ^ k))

-- The test of one flag.
pub bit_and_flag : (k a : ℕ) → bit_and a (1 * 2 ^ k) ≡ a / 2 ^ k % 2 * 2 ^ k
bit_and_flag k a = rw (bit_and_high k 1 a, bit_and_low 1 (a / 2 ^ k))

or_fuel : (n m a b : ℕ) → a ≤ n → a ≤ m → digits (λ b. b) max n a b ≡ digits (λ b. b) max m a b
or_fuel zero zero a b p q = refl
or_fuel zero (suc m) zero b p q = refl
or_fuel zero (suc m) (suc a) b p q = absurd (omega arith)
or_fuel (suc n) zero zero b p q = refl
or_fuel (suc n) zero (suc a) b p q = absurd (omega arith)
or_fuel (suc n) (suc m) zero b p q = refl
or_fuel (suc n) (suc m) (suc a) b p q =
    omega (arith, or_fuel n m (suc a / 2) (b / 2) (omega arith) (omega arith))

pub zero-bit_or : (b : ℕ) → bit_or 0 b ≡ b
zero-bit_or b = bit_or-bitwise 0 b

or_lowest : (a b : ℕ) → bit_or a b ≡ bit_or (a / 2) (b / 2) * 2 + max (a % 2) (b % 2)
or_lowest zero b = omega (arith, zero-bit_or b, zero-bit_or (b / 2))
or_lowest (suc a) b = omega (
  arith,
  bit_or-bitwise (suc a) b,
  bit_or-bitwise (suc a / 2) (b / 2),
  or_fuel a (suc a / 2) (suc a / 2) (b / 2) (omega arith) (omega arith),
)

or-zero_fuel : (n a : ℕ) → a ≤ n → bit_or a 0 ≡ a
or-zero_fuel n zero h = refl
or-zero_fuel zero (suc a) h = absurd (omega arith)
or-zero_fuel (suc n) (suc a) h =
    omega (arith, or_lowest (suc a) 0, or-zero_fuel n (suc a / 2) (omega arith))

pub bit_or-zero : (a : ℕ) → bit_or a 0 ≡ a
bit_or-zero a = or-zero_fuel a a (omega arith)

-- Two fields that do not overlap are joined by addition.
pub bit_or_fields : (k q r : ℕ) → r < 2 ^ k → bit_or (q * 2 ^ k) r ≡ q * 2 ^ k + r
bit_or_fields zero q r fits = ground (arith, bit_or-zero q)
bit_or_fields (suc k) q r fits =
    ground
      (arith, or_lowest (q * 2 ^ suc k) r, double-pow q k, bit_or_fields k q (r / 2) (omega arith))

pub bit_or_disjoint : (k x r : ℕ) → x % 2 ^ k ≡ 0 → r < 2 ^ k → bit_or x r ≡ x + r
bit_or_disjoint k x r aligned fits =
    let e : x ≡ x / 2 ^ k * 2 ^ k = omega (arith, div-add-mod x (2 ^ k)) in
    ap (λ (t : ℕ). bit_or t r) e
    ∙ bit_or_fields k (x / 2 ^ k) r fits
    ∙ ap (λ (t : ℕ). t + r) (sym e)

-- The two bits that mark a compression pointer are clear in the length of a label.
pub label_marks : (size : ℕ) → size < 64 → bit_and size 0xc0 ≡ 0
label_marks size h =
    bit_and_high 6 3 size
    ∙ ap (λ (t : ℕ). bit_and t 3 * 2 ^ 6) (let e : size / 2 ^ 6 ≡ 0 = omega arith in e)
    ∙ ap (λ (t : ℕ). t * 2 ^ 6) (zero-bit_and 3)

xor_fuel :
    (n m a b : ℕ) → a ≤ n → a ≤ m → digits (λ b. b) differ n a b ≡ digits (λ b. b) differ m a b
xor_fuel zero zero a b p q = refl
xor_fuel zero (suc m) zero b p q = refl
xor_fuel zero (suc m) (suc a) b p q = absurd (omega arith)
xor_fuel (suc n) zero zero b p q = refl
xor_fuel (suc n) zero (suc a) b p q = absurd (omega arith)
xor_fuel (suc n) (suc m) zero b p q = refl
xor_fuel (suc n) (suc m) (suc a) b p q =
    omega (arith, xor_fuel n m (suc a / 2) (b / 2) (omega arith) (omega arith))

zero-bit_xor : (b : ℕ) → bit_xor 0 b ≡ b
zero-bit_xor b = bit_xor-bitwise 0 b

-- Exclusive or of two digits.
digit_xor : (x y : ℕ) → x < 2 → y < 2 → differ x y ≡ (x + y) % 2
digit_xor zero zero h k = refl
digit_xor zero (suc zero) h k = refl
digit_xor (suc zero) zero h k = refl
digit_xor (suc zero) (suc zero) h k = refl
digit_xor zero (suc (suc y)) h k = absurd (omega arith)
digit_xor (suc zero) (suc (suc y)) h k = absurd (omega arith)
digit_xor (suc (suc x)) y h k = absurd (omega arith)

xor_lowest : (a b : ℕ) → bit_xor a b ≡ bit_xor (a / 2) (b / 2) * 2 + (a % 2 + b % 2) % 2
xor_lowest zero b = omega (arith, zero-bit_xor b, zero-bit_xor (b / 2))
xor_lowest (suc a) b = omega (
  arith,
  bit_xor-bitwise (suc a) b,
  bit_xor-bitwise (suc a / 2) (b / 2),
  xor_fuel a (suc a / 2) (suc a / 2) (b / 2) (omega arith) (omega arith),
  digit_xor (suc a % 2) (b % 2) (omega arith) (omega arith),
)

xor_cancel_fuel : (n a d : ℕ) → a + d ≤ n → bit_xor (bit_xor a d) d ≡ a
xor_cancel_fuel zero zero zero h = refl
xor_cancel_fuel zero zero (suc d) h = absurd (omega arith)
xor_cancel_fuel zero (suc a) d h = absurd (omega arith)
xor_cancel_fuel (suc n) zero zero h = refl
xor_cancel_fuel (suc n) zero (suc d) h = omega (
  arith,
  xor_lowest 0 (suc d),
  xor_lowest (bit_xor 0 (suc d)) (suc d),
  xor_cancel_fuel n 0 (suc d / 2) (omega arith),
  ap (λ (t : ℕ). bit_xor t (suc d / 2))
      (let e : bit_xor 0 (suc d) / 2 ≡ bit_xor 0 (suc d / 2) =
          omega (arith, zero-bit_xor (suc d), zero-bit_xor (suc d / 2)) in
        e),
)
xor_cancel_fuel (suc n) (suc a) d h = omega (
  arith,
  xor_lowest (suc a) d,
  xor_lowest (bit_xor (suc a) d) d,
  xor_cancel_fuel n (suc a / 2) (d / 2) (omega arith),
  ap (λ (t : ℕ). bit_xor t (d / 2))
      (let e : bit_xor (suc a) d / 2 ≡ bit_xor (suc a / 2) (d / 2) =
          omega (arith, xor_lowest (suc a) d) in
        e),
)

-- Flipping the same bits twice changes nothing.
pub bit_xor_cancel : (a d : ℕ) → bit_xor (bit_xor a d) d ≡ a
bit_xor_cancel a d = xor_cancel_fuel (a + d) a d (omega arith)

pub bit_xor-lt : (k a b : ℕ) → a < 2 ^ k → b < 2 ^ k → bit_xor a b < 2 ^ k
bit_xor-lt zero a b h k =
    omega (arith, ap₂ bit_xor (let e : a ≡ 0 = omega arith in e) (let e : b ≡ 0 = omega arith in e))
bit_xor-lt (suc n) a b h k = omega (
  arith,
  pow-suc 2 n,
  xor_lowest a b,
  bit_xor-lt n (a / 2) (b / 2) (omega (arith, pow-suc 2 n)) (omega (arith, pow-suc 2 n)),
)
