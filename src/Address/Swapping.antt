-- ===== src/Address/Swapping.antt =====
-- byteswapOnLittleEndian of src/socket/include/endians.h, and the bitwise operations that
-- src/socket/address.cc uses beside it.
use phase.Base.{ℕ, ◌+◌, ◌-◌, ◌*◌, ◌/◌, ◌%◌, ◌^◌, ◌<◌, ◌≡◌, refl, ap, sym, ◌∙◌, arith}
use phase.Base.Bytewise.{Digitwise, apart, below}
use phase.ByteArray.State.{Endian, little, big}
use phase.ByteArray.Codec.{byteswap, le_bytes, from_le}
use phase.ByteArray.Wire.{byteswap-byteswap}
use phase.Address.Masks.{swap_on_little}

swapped : ℕ → ℕ
swapped v =
    v / 256 / 256 / 256 % 256
    + 256 * (v / 256 / 256 % 256 + 256 * (v / 256 % 256 + 256 * (v % 256)))

byteswap-swapped : (v : ℕ) → byteswap 4 v ≡ swapped v
unfolding byteswap le_bytes from_le swapped
byteswap-swapped v = omega arith

pub byteswap_lt : (v : ℕ) → byteswap 4 v < 2 ^ 32
unfolding swapped
byteswap_lt v = omega (arith, byteswap-swapped v)

module _ (f : ℕ → ℕ → ℕ) (w : Digitwise f) where
  apart_byte :
      (x a y b : ℕ) → x < 256 → y < 256 → f (x + 256 * a) (y + 256 * b) ≡ f x y + 256 * f a b
  apart_byte x a y b p q =
      ap (λ z. f z (y + 256 * b)) (let e : x + 256 * a ≡ x + a * 2 ^ 8 = omega arith in e)
      ∙ ap (f (x + a * 2 ^ 8)) (let e : y + 256 * b ≡ y + b * 2 ^ 8 = omega arith in e)
      ∙ apart f w 8 x a y b p q
      ∙ (let e : f x y + f a b * 2 ^ 8 ≡ f x y + 256 * f a b = omega arith in e)

  parted : (a b : ℕ) → f a b ≡ f (a % 256) (b % 256) + 256 * f (a / 256) (b / 256)
  parted a b =
      ap (λ z. f z b) (let e : a ≡ a % 256 + 256 * (a / 256) = omega arith in e)
      ∙ ap (f (a % 256 + 256 * (a / 256)))
          (let e : b ≡ b % 256 + 256 * (b / 256) = omega arith in e)
      ∙ apart_byte (a % 256) (a / 256) (b % 256) (b / 256) (omega arith) (omega arith)

  parts : (a b : ℕ) → (f a b % 256 ≡ f (a % 256) (b % 256)) × (f a b / 256 ≡ f (a / 256) (b / 256))
  parts a b = omega (arith, parted a b, below f w 8 (a % 256) (b % 256) (omega arith) (omega arith))

  pub byteswap_commutes : (a b : ℕ) → byteswap 4 (f a b) ≡ f (byteswap 4 a) (byteswap 4 b)
  unfolding swapped
  byteswap_commutes a b =
      byteswap-swapped (f a b)
      ∙ omega (
        arith,
        parts a b,
        parts (a / 256) (b / 256),
        parts (a / 256 / 256) (b / 256 / 256),
        parts (a / 256 / 256 / 256) (b / 256 / 256 / 256),
        apart_byte _ (inner_two a) _ (inner_two b) (third a) (third b),
        apart_byte _ (inner_one a) _ (inner_one b) (second a) (second b),
        apart_byte _ (a % 256) _ (b % 256) (first a) (first b),
      )
      ∙ ap (λ z. f z (swapped b)) (sym (byteswap-swapped a))
      ∙ ap (f (byteswap 4 a)) (sym (byteswap-swapped b))
    where
      inner_one : ℕ → ℕ
      inner_one v = v / 256 % 256 + 256 * (v % 256)

      inner_two : ℕ → ℕ
      inner_two v = v / 256 / 256 % 256 + 256 * (v / 256 % 256 + 256 * (v % 256))

      first : (v : ℕ) → v / 256 % 256 < 256
      first v = omega arith

      second : (v : ℕ) → v / 256 / 256 % 256 < 256
      second v = omega arith

      third : (v : ℕ) → v / 256 / 256 / 256 % 256 < 256
      third v = omega arith

pub swap_on_little_commutes :
    (host : Endian) (f : ℕ → ℕ → ℕ)
    → Digitwise f
    → (a b : ℕ)
    → swap_on_little host 4 (f a b) ≡ f (swap_on_little host 4 a) (swap_on_little host 4 b)
unfolding swap_on_little
swap_on_little_commutes little f w a b = byteswap_commutes f w a b
swap_on_little_commutes big f w a b = refl

pub swap_on_little_twice :
    (host : Endian) (n v : ℕ) → v < 256 ^ n → swap_on_little host n (swap_on_little host n v) ≡ v
unfolding swap_on_little
swap_on_little_twice little n v h = byteswap-byteswap n v h
swap_on_little_twice big n v h = refl

-- Complements are swapped to complements.
pub swap_on_little_not :
    (host : Endian) (v : ℕ)
    → v < 2 ^ 32
    → swap_on_little host 4 (2 ^ 32 - 1 - v) ≡ 2 ^ 32 - 1 - swap_on_little host 4 v
unfolding swap_on_little swapped
swap_on_little_not little v h = omega (arith, byteswap-swapped v, byteswap-swapped (2 ^ 32 - 1 - v))
swap_on_little_not big v h = refl

pub swap_on_little_lt : (host : Endian) (v : ℕ) → v < 2 ^ 32 → swap_on_little host 4 v < 2 ^ 32
unfolding swap_on_little
swap_on_little_lt little v h = byteswap_lt v
swap_on_little_lt big v h = h
