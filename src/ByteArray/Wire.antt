-- ===== src/ByteArray/Wire.antt =====
-- The bytes that the fixed-width writers put out, and their round trip.
use phase.Base.{
  All-concat, ℕ, zero, suc, ◌+◌, ◌*◌, ◌/◌, ◌%◌, ◌^◌, ◌<◌, ◌≡◌, refl, ap, sym, subst, ◌∙◌, arith,
  List, [], ◌∷◌, reverse, length, length-append, All,
}
use mathlib.Core.List.{reverse-cons, reverse-reverse}
use native.Mathlib.Nat.{pow-suc}
use phase.ByteArray.State.{Endian, little, big}
use phase.ByteArray.Codec.{le_bytes, from_le, store, load, byteswap, swap_for}

abbrev pub IsByte : ℕ → Type 0
IsByte x = x < 256

pub length-le_bytes : (n v : ℕ) → length (le_bytes n v) ≡ n
unfolding le_bytes
length-le_bytes zero v = refl
length-le_bytes (suc n) v = ap suc (length-le_bytes n (v / 256))

le_bytes-IsByte : (n v : ℕ) → All IsByte (le_bytes n v)
unfolding le_bytes
le_bytes-IsByte zero v = tt
le_bytes-IsByte (suc n) v = (omega arith, le_bytes-IsByte n (v / 256))

from_le-le_bytes : (n v : ℕ) → v < 256 ^ n → from_le (le_bytes n v) ≡ v
unfolding le_bytes from_le
from_le-le_bytes zero v h = omega arith
from_le-le_bytes (suc n) v h =
    omega (arith, from_le-le_bytes n (v / 256) (omega (arith, pow-suc 256 n)))

le_bytes-from_le : (xs : List ℕ) → All IsByte xs → le_bytes (length xs) (from_le xs) ≡ xs
unfolding le_bytes from_le
le_bytes-from_le [] h = refl
le_bytes-from_le (x ∷ xs) (b, h) =
    ap (λ k. k ∷ le_bytes (length xs) ((x + 256 * from_le xs) / 256))
      (let e : (x + 256 * from_le xs) % 256 ≡ x = omega arith in e)
    ∙ ap (◌∷◌ x) (
        ap (le_bytes (length xs))
          (let e : (x + 256 * from_le xs) / 256 ≡ from_le xs = omega arith in e)
        ∙ le_bytes-from_le xs h)

from_le-lt : (xs : List ℕ) → All IsByte xs → from_le xs < 256 ^ length xs
unfolding from_le
from_le-lt [] h = omega arith
from_le-lt (x ∷ xs) (b, h) = omega (arith, from_le-lt xs h, pow-suc 256 (length xs))

All-reverse : (xs : List ℕ) → All IsByte xs → All IsByte (reverse xs)
All-reverse [] h = tt
All-reverse (x ∷ xs) (b, h) =
    subst (All IsByte) (sym (reverse-cons x xs))
      (All-concat IsByte (reverse xs) (x ∷ []) (All-reverse xs h) (b, tt))

pub length-reverse : (xs : List ℕ) → length (reverse xs) ≡ length xs
length-reverse [] = refl
length-reverse (x ∷ xs) =
    ap length (reverse-cons x xs)
    ∙ length-append (reverse xs) (x ∷ [])
    ∙ omega (arith, length-reverse xs)

-- The bytes of the swapped integer are those of the integer, turned round.
le_bytes-byteswap : (n v : ℕ) → le_bytes n (byteswap n v) ≡ reverse (le_bytes n v)
unfolding byteswap
le_bytes-byteswap n v =
    ap (λ k. le_bytes k (from_le (reverse (le_bytes n v))))
      (sym (length-reverse _ ∙ length-le_bytes n v))
    ∙ le_bytes-from_le (reverse (le_bytes n v)) (All-reverse _ (le_bytes-IsByte n v))

unreversed : (n v : ℕ) → v < 256 ^ n → from_le (reverse (reverse (le_bytes n v))) ≡ v
unreversed n v h = rw (reverse-reverse (le_bytes n v)) (from_le-le_bytes n v h)

pub byteswap-byteswap : (n v : ℕ) → v < 256 ^ n → byteswap n (byteswap n v) ≡ v
byteswap-byteswap n v h =
    unfold byteswap in ap (λ l. from_le (reverse l)) (le_bytes-byteswap n v) ∙ unreversed n v h

-- The order of the bytes on the wire.
abbrev pub wire : Endian → ℕ → ℕ → List ℕ
wire little n v = le_bytes n v
wire big n v = reverse (le_bytes n v)

-- What a writer of an `n`-byte integer puts out depends on the order that the array is set to and
-- not on the machine, and a reader on any machine gets the integer back from it.
pub store_swap :
    (host endian : Endian) (n v : ℕ)
    → v < 256 ^ n
    → (store host n (swap_for host endian n v) ≡ wire endian n v)
      × (swap_for host endian n (load host (wire endian n v)) ≡ v)
unfolding store swap_for load
store_swap little little n v h = (refl, from_le-le_bytes n v h)
store_swap little big n v h = (le_bytes-byteswap n v, byteswap-byteswap n v h)
store_swap big little n v h =
    (ap reverse (le_bytes-byteswap n v) ∙ reverse-reverse (le_bytes n v), byteswap-byteswap n v h)
store_swap big big n v h = (refl, unreversed n v h)
