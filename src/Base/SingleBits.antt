-- ===== src/Base/SingleBits.antt =====
-- One bit of a number: `|` and `&` with a power of two.
use Prim.Native.Nat.{
  ℕ, zero, suc, ◌+◌, ◌-◌, ◌/◌, ◌%◌, ◌^◌, ◌≤◌, max, bit_and, bit_or, digits, bit_and-bitwise,
  bit_or-bitwise,
}
use mathlib.Core.Path.{◌≡◌, refl, ap, ◌∙◌}
use mathlib.Core.Bool.{Bool, true, false}
use native.Mathlib.Nat.{pow-suc}
use native.Mathlib.Omega.{arith}
use phase.Base.Bits.{or_step, and_step, and_zero}
use phase.Base.Tests.{◌==◌, if◌then◌else◌}

or_zero : (n a : ℕ) → a ≤ n → digits (λ b. b) max n a 0 ≡ a
or_zero zero zero h = refl
or_zero zero (suc a) h = absurd (omega arith)
or_zero (suc n) zero h = refl
or_zero (suc n) (suc a) h = omega (arith, or_zero n (suc a / 2) (omega arith))

or-zero : (a : ℕ) → bit_or a 0 ≡ a
or-zero a = omega (arith, bit_or-bitwise a 0, or_zero a a)

and-zero : (a : ℕ) → bit_and a 0 ≡ 0
and-zero a = omega (arith, bit_and-bitwise a 0, and_zero a a)

-- The bit of the weight `2^k`.
abbrev pub bit : ℕ → ℕ → Bool
bit zero a = a % 2 == 1
bit (suc k) a = bit k (a / 2)

half_pow : (k : ℕ) → (2 ^ suc k / 2 ≡ 2 ^ k) × (2 ^ suc k % 2 ≡ 0)
half_pow k = omega (arith, pow-suc 2 k)

-- `a | 2^k` sets the bit.
pub or_bit : (k a : ℕ) → bit_or a (2 ^ k) ≡ (if bit k a then a else a + 2 ^ k)
or_bit zero a = ground (arith, or_step a 1, or-zero (a / 2))
or_bit (suc k) a = ground (
  arith,
  or_step a (2 ^ suc k),
  pow-suc 2 k,
  ap (bit_or (a / 2)) (half_pow k).0,
  (half_pow k).1,
  or_bit k (a / 2),
)

-- `a & 2^k` is the bit.
pub and_bit : (k a : ℕ) → bit_and a (2 ^ k) ≡ (if bit k a then 2 ^ k else 0)
and_bit zero a = ground (arith, and_step a 1, and-zero (a / 2))
and_bit (suc k) a = ground (
  arith,
  and_step a (2 ^ suc k),
  pow-suc 2 k,
  ap (bit_and (a / 2)) (half_pow k).0,
  (half_pow k).1,
  and_bit k (a / 2),
)

-- A bit that is set is part of the number, and one that is not can be added.
pub bit_part : (k a : ℕ) → bit k a ≡ true → (2 ^ k ≤ a) × (bit k (a - 2 ^ k) ≡ false)
bit_part zero a h = ground arith
bit_part (suc k) a h =
    let e : (a - 2 ^ suc k) / 2 ≡ a / 2 - 2 ^ k = omega (arith, pow-suc 2 k) in
    ground (arith, bit_part k (a / 2) h, pow-suc 2 k, ap (bit k) e)

pub bit_added : (k a : ℕ) → bit k a ≡ false → bit k (a + 2 ^ k) ≡ true
bit_added zero a h = ground arith
bit_added (suc k) a h =
    let e : (a + 2 ^ suc k) / 2 ≡ a / 2 + 2 ^ k = omega (arith, pow-suc 2 k) in
    ap (bit k) e ∙ bit_added k (a / 2) h
