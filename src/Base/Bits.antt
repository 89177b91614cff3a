-- ===== src/Base/Bits.antt =====
-- `|`, `&` and `^` as arithmetic: fields that do not overlap, low masks, and masks of all ones.
use Prim.Native.Nat.{
  ℕ, zero, suc, ◌+◌, ◌-◌, ◌*◌, ◌/◌, ◌%◌, ◌^◌, ◌≤◌, ◌<◌, min, max, bit_and, bit_or, bit_xor, digits,
  bit_and-bitwise, bit_or-bitwise, bit_xor-bitwise, differ,
}
use mathlib.Core.Path.{◌≡◌, refl, ap, ◌∙◌}
use native.Mathlib.Nat.{pow-suc, one-le-pow}
use native.Mathlib.Omega.{arith}

-- One digit of any of the three operations. `z` is the result where the first number has run out.
module _ (z : ℕ → ℕ) (f : ℕ → ℕ → ℕ) where
  digits_enough : (n m a b : ℕ) → a ≤ n → a ≤ m → digits z f n a b ≡ digits z f m a b
  digits_enough zero zero a b p q = refl
  digits_enough zero (suc m) zero b p q = refl
  digits_enough zero (suc m) (suc a) b p q = absurd (omega arith)
  digits_enough (suc n) zero zero b p q = refl
  digits_enough (suc n) zero (suc a) b p q = absurd (omega arith)
  digits_enough (suc n) (suc m) zero b p q = refl
  digits_enough (suc n) (suc m) (suc a) b p q =
      ap (λ t. t * 2 + f (suc a % 2) (b % 2))
        (digits_enough n m (suc a / 2) (b / 2) (omega arith) (omega arith))

  digits_step :
      ((b : ℕ) → z b ≡ z (b / 2) * 2 + f 0 (b % 2))
      → (a b : ℕ) → digits z f a a b ≡ digits z f (a / 2) (a / 2) (b / 2) * 2 + f (a % 2) (b % 2)
  digits_step h zero b = h b
  digits_step h (suc a) b =
      ap (λ t. t * 2 + f (suc a % 2) (b % 2))
        (digits_enough a (suc a / 2) (suc a / 2) (b / 2) (omega arith) (omega arith))

id_split : (b : ℕ) → b ≡ b / 2 * 2 + max 0 (b % 2)
id_split b = omega arith

zero_split : (b : ℕ) → 0 ≡ 0 * 2 + min 0 (b % 2)
zero_split b = omega arith

differ_split : (b : ℕ) → b ≡ b / 2 * 2 + differ 0 (b % 2)
differ_split b = omega arith

pub or_step : (a b : ℕ) → bit_or a b ≡ bit_or (a / 2) (b / 2) * 2 + max (a % 2) (b % 2)
or_step a b = omega (
  arith,
  bit_or-bitwise a b,
  digits_step (λ b. b) max id_split a b,
  bit_or-bitwise (a / 2) (b / 2),
)

pub and_step : (a b : ℕ) → bit_and a b ≡ bit_and (a / 2) (b / 2) * 2 + min (a % 2) (b % 2)
and_step a b = omega (
  arith,
  bit_and-bitwise a b,
  digits_step (λ b. 0) min zero_split a b,
  bit_and-bitwise (a / 2) (b / 2),
)

xor_step : (a b : ℕ) → bit_xor a b ≡ bit_xor (a / 2) (b / 2) * 2 + differ (a % 2) (b % 2)
xor_step a b = omega (
  arith,
  bit_xor-bitwise a b,
  digits_step (λ b. b) differ differ_split a b,
  bit_xor-bitwise (a / 2) (b / 2),
)

double_pow : (q k : ℕ) → q * 2 ^ suc k ≡ q * 2 ^ k * 2
double_pow q k = omega (arith, ap (λ (t : ℕ). q * t) (pow-suc 2 k))

pub and_zero : (n a : ℕ) → digits (λ b. 0) min n a 0 ≡ 0
and_zero zero a = refl
and_zero (suc n) zero = refl
and_zero (suc n) (suc a) = omega (arith, and_zero n (suc a / 2))

half_mask : (k : ℕ) → ((2 ^ suc k - 1) / 2 ≡ 2 ^ k - 1) × ((2 ^ suc k - 1) % 2 ≡ 1)
half_mask k = omega (arith, pow-suc 2 k, one-le-pow k 2)

-- `r | (q << k)` is the sum where `r` fits in the `k` bits below the field.
pub or_shifted : (k r q : ℕ) → r < 2 ^ k → bit_or r (q * 2 ^ k) ≡ r + q * 2 ^ k
or_shifted zero r q h = ground (arith, bit_or-bitwise 0 q)
or_shifted (suc k) r q h = ground (
  arith,
  or_step r (q * 2 ^ suc k),
  double_pow q k,
  pow-suc 2 k,
  or_shifted k (r / 2) q (omega (arith, pow-suc 2 k)),
)

double_mod : (a m : ℕ) → 0 < m → a % (m * 2) ≡ a / 2 % m * 2 + a % 2
double_mod a m h = grind arith

differ_one : (d : ℕ) → d < 2 → differ d 1 ≡ 1 - d
differ_one zero h = refl
differ_one (suc zero) h = refl
differ_one (suc (suc d)) h = absurd (omega arith)

differ_none : (d : ℕ) → differ d 0 ≡ d
differ_none zero = refl
differ_none (suc d) = refl

-- `a & (2^k - 1)` keeps the low `k` bits.
pub and_mask : (k a : ℕ) → bit_and a (2 ^ k - 1) ≡ a % 2 ^ k
and_mask zero a = omega (arith, bit_and-bitwise a 0, and_zero a a)
and_mask (suc k) a = ground (
  arith,
  and_step a (2 ^ suc k - 1),
  pow-suc 2 k,
  ap (bit_and (a / 2)) (half_mask k).0,
  ap (min (a % 2)) (half_mask k).1,
  and_mask k (a / 2),
  double_mod a (2 ^ k) (one-le-pow k 2 (omega arith)),
)

-- `a ^ (2^k - 1)` complements the `k` bits of `a`.
pub xor_ones : (k a : ℕ) → a < 2 ^ k → bit_xor a (2 ^ k - 1) ≡ 2 ^ k - 1 - a
xor_ones zero a h = ground (arith, bit_xor-bitwise 0 0)
xor_ones (suc k) a h = ground (
  arith,
  xor_step a (2 ^ suc k - 1),
  pow-suc 2 k,
  one-le-pow k 2,
  ap (bit_xor (a / 2)) (half_mask k).0,
  ap (differ (a % 2)) (half_mask k).1,
  differ_one (a % 2),
  xor_ones k (a / 2) (omega (arith, pow-suc 2 k)),
)

xor_zero : (n a : ℕ) → a ≤ n → digits (λ b. b) differ n a 0 ≡ a
xor_zero zero zero h = refl
xor_zero zero (suc a) h = absurd (omega arith)
xor_zero (suc n) zero h = refl
xor_zero (suc n) (suc a) h =
    omega (arith, xor_zero n (suc a / 2) (omega arith), differ_none (suc a % 2))

pub xor-zero : (a : ℕ) → bit_xor a 0 ≡ a
xor-zero a = omega (arith, bit_xor-bitwise a 0, xor_zero a a)

or_zero : (a : ℕ) → bit_or a 0 ≡ a
or_zero a = zero_or a a (omega arith)
  where
    zero_or : (n a : ℕ) → a ≤ n → bit_or a 0 ≡ a
    zero_or n zero h = refl
    zero_or zero (suc a) h = absurd (omega arith)
    zero_or (suc n) (suc a) h =
        omega (arith, or_step (suc a) 0, zero_or n (suc a / 2) (omega arith))

-- `a | (2^k - 1)` sets the low `k` bits.
pub or_mask : (k a : ℕ) → bit_or a (2 ^ k - 1) ≡ a - a % 2 ^ k + (2 ^ k - 1)
or_mask zero a = omega (arith, or_zero a)
or_mask (suc k) a = ground (
  arith,
  or_step a (2 ^ suc k - 1),
  pow-suc 2 k,
  one-le-pow k 2,
  ap (bit_or (a / 2)) (half_mask k).0,
  ap (max (a % 2)) (half_mask k).1,
  or_mask k (a / 2),
  double_mod a (2 ^ k) (one-le-pow k 2 (omega arith)),
)

half_high :
    (k n : ℕ)
    → ((2 ^ (suc k + n) - 2 ^ suc k) / 2 ≡ 2 ^ (k + n) - 2 ^ k)
      × ((2 ^ (suc k + n) - 2 ^ suc k) % 2 ≡ 0)
half_high k n =
    rw (let e : suc k + n ≡ suc (k + n) = omega arith in e)
      (omega (arith, pow-suc 2 k, pow-suc 2 (k + n)))

pow_both : (k n : ℕ) → 2 ^ (suc k + n) ≡ 2 * 2 ^ (k + n)
pow_both k n =
    ap (λ z. 2 ^ z) (let e : suc k + n ≡ suc (k + n) = omega arith in e)
    ∙ omega (arith, pow-suc 2 (k + n))

-- `a & ~(2^k - 1)` clears the low `k` bits of `k + n`.
pub and_high : (k n a : ℕ) → a < 2 ^ (k + n) → bit_and a (2 ^ (k + n) - 2 ^ k) ≡ a - a % 2 ^ k
and_high zero n a h =
    ap (bit_and a) (ap (λ z. 2 ^ z - 1) (let e : 0 + n ≡ n = omega arith in e))
    ∙ and_mask n a
    ∙ low (let e : 0 + n ≡ n = omega arith in e)
  where
    low : 0 + n ≡ n → a % 2 ^ n ≡ a - a % 2 ^ 0
    low e = grind (arith, ap (λ z. 2 ^ z) e)
and_high (suc k) n a h = ground (
  arith,
  and_step a (2 ^ (suc k + n) - 2 ^ suc k),
  pow-suc 2 k,
  one-le-pow k 2,
  ap (bit_and (a / 2)) (half_high k n).0,
  ap (min (a % 2)) (half_high k n).1,
  and_high k n (a / 2) (omega (arith, pow_both k n)),
  double_mod a (2 ^ k) (one-le-pow k 2 (omega arith)),
)
