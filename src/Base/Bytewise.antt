-- ===== src/Base/Bytewise.antt =====
-- `|` and `&` work on the low bits and on the others apart, so also byte by byte.
use Prim.Native.Nat.{ℕ, zero, suc, ◌+◌, ◌*◌, ◌/◌, ◌%◌, ◌^◌, ◌<◌, min, max, bit_and, bit_or}
use mathlib.Core.Path.{◌≡◌, refl, ap, ◌∙◌}
use native.Mathlib.Nat.{pow-suc}
use native.Mathlib.Omega.{arith}
use phase.Base.Bits.{or_step, and_step}

-- An operation that goes digit by digit.
pub record Digitwise (f : ℕ → ℕ → ℕ) : Type 0 where
  pub digit : ℕ → ℕ → ℕ
  pub step : (a b : ℕ) → f a b ≡ f (a / 2) (b / 2) * 2 + digit (a % 2) (b % 2)
  pub none_set : f 0 0 ≡ 0
  pub one_digit : (c d : ℕ) → c < 2 → d < 2 → digit c d < 2

one_of_max : (c d : ℕ) → c < 2 → d < 2 → max c d < 2
one_of_max c d h k = omega arith

one_of_min : (c d : ℕ) → c < 2 → d < 2 → min c d < 2
one_of_min c d h k = omega arith

pub bit_or-Digitwise : Digitwise bit_or
bit_or-Digitwise = record { digit = max; step = or_step; none_set = refl; one_digit = one_of_max }

pub bit_and-Digitwise : Digitwise bit_and
bit_and-Digitwise = record { digit = min; step = and_step; none_set = refl; one_digit = one_of_min }

half_above :
    (k x a : ℕ) → ((x + a * 2 ^ suc k) / 2 ≡ x / 2 + a * 2 ^ k) × ((x + a * 2 ^ suc k) % 2 ≡ x % 2)
half_above k x a = omega (arith, ap (λ (t : ℕ). a * t) (pow-suc 2 k))

plain : (a : ℕ) → 0 + a * 2 ^ 0 ≡ a
plain a = omega arith

module _ (f : ℕ → ℕ → ℕ) (w : Digitwise f) where
  pub apart :
      (k x a y b : ℕ)
      → x < 2 ^ k
      → y < 2 ^ k
      → f (x + a * 2 ^ k) (y + b * 2 ^ k) ≡ f x y + f a b * 2 ^ k
  apart zero zero a zero b p q =
      ap (λ z. f z (0 + b * 2 ^ 0)) (plain a) ∙ ap (f a) (plain b) ∙ omega (arith, w.none_set)
  apart zero zero a (suc y) b p q = absurd (omega arith)
  apart zero (suc x) a y b p q = absurd (omega arith)
  apart (suc k) x a y b p q = ground (
    arith,
    w.step (x + a * 2 ^ suc k) (y + b * 2 ^ suc k),
    half_above k x a,
    half_above k y b,
    w.step x y,
    apart k (x / 2) a (y / 2) b (omega (arith, pow-suc 2 k)) (omega (arith, pow-suc 2 k)),
    ap (λ (t : ℕ). f a b * t) (pow-suc 2 k),
  )

  pub below : (k x y : ℕ) → x < 2 ^ k → y < 2 ^ k → f x y < 2 ^ k
  below zero zero zero p q = omega (arith, w.none_set)
  below zero zero (suc y) p q = absurd (omega arith)
  below zero (suc x) y p q = absurd (omega arith)
  below (suc k) x y p q = omega (
    arith,
    pow-suc 2 k,
    w.step x y,
    w.one_digit (x % 2) (y % 2) (omega arith) (omega arith),
    below k (x / 2) (y / 2) (omega (arith, pow-suc 2 k)) (omega (arith, pow-suc 2 k)),
  )
