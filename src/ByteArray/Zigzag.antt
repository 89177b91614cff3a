-- ===== src/ByteArray/Zigzag.antt =====
-- The zigzag encoding is one to one, for 32 and 64 bits.
use phase.Base.{ℕ, ◌-◌, ◌*◌, ◌/◌, ◌%◌, ◌^◌, ◌<◌, ◌≡◌, arith, ap, ◌∙◌, bit_xor, leb, if◌then◌else◌}
use phase.Base.Bits.{and_mask, xor_ones, xor-zero}
use native.Mathlib.Nat.{mod_self, mod-eq_of_lt}
use phase.ByteArray.Codec.{zigzag_of, decode_zigzag}

decode_even : (w v : ℕ) → v % 2 ≡ 0 → decode_zigzag w v ≡ v / 2
unfolding decode_zigzag
decode_even w v e =
    ap (λ m. bit_xor (v / 2) ((2 ^ w - m) % 2 ^ w)) (and_mask 1 v ∙ e)
    ∙ ap (bit_xor (v / 2)) (
        let e : (2 ^ w - 0) % 2 ^ w ≡ 0 = ap (λ k. k % 2 ^ w) (omega arith) ∙ mod_self (2 ^ w) in e)
    ∙ xor-zero (v / 2)

decode_odd :
    (w v : ℕ) → v / 2 < 2 ^ w → 1 < 2 ^ w → v % 2 ≡ 1 → decode_zigzag w v ≡ 2 ^ w - 1 - v / 2
unfolding decode_zigzag
decode_odd w v h k e =
    ap (λ m. bit_xor (v / 2) ((2 ^ w - m) % 2 ^ w)) (and_mask 1 v ∙ e)
    ∙ ap (bit_xor (v / 2)) (mod-eq_of_lt {n = 2 ^ w - 1} {m = 2 ^ w} (omega arith))
    ∙ xor_ones w (v / 2) h

encode_lem32 :
    (v : ℕ) → v < 2 ^ 32 → zigzag_of 32 v ≡ (if leb (2 ^ 31) v then 2 * (2 ^ 32 - v) - 1 else 2 * v)
unfolding zigzag_of
encode_lem32 v h = ground arith

encode_lem64 :
    (v : ℕ) → v < 2 ^ 64 → zigzag_of 64 v ≡ (if leb (2 ^ 63) v then 2 * (2 ^ 64 - v) - 1 else 2 * v)
unfolding zigzag_of
encode_lem64 v h = ground arith

-- For a 32-bit pattern, decoding undoes encoding and encoding undoes decoding; the code fits 32
-- bits, and is 2 * |v| - 1 for a negative `v` and 2 * v for another.
pub zigzag32 :
    (v : ℕ)
    → v < 2 ^ 32
    → (decode_zigzag 32 (zigzag_of 32 v) ≡ v)
      × (zigzag_of 32 (decode_zigzag 32 v) ≡ v)
      × (zigzag_of 32 v < 2 ^ 32)
      × (zigzag_of 32 v ≡ (if leb (2 ^ 31) v then 2 * (2 ^ 32 - v) - 1 else 2 * v))
zigzag32 v h = (
  ground (arith, encode_lem32 v, decode_even 32 (zigzag_of 32 v), decode_odd 32 (zigzag_of 32 v)),
  ground (arith, encode_lem32 (decode_zigzag 32 v), decode_even 32 v, decode_odd 32 v),
  ground (arith, encode_lem32 v),
  encode_lem32 v h,
)

-- For a 64-bit pattern, decoding undoes encoding and encoding undoes decoding; the code fits 64
-- bits, and is 2 * |v| - 1 for a negative `v` and 2 * v for another.
pub zigzag64 :
    (v : ℕ)
    → v < 2 ^ 64
    → (decode_zigzag 64 (zigzag_of 64 v) ≡ v)
      × (zigzag_of 64 (decode_zigzag 64 v) ≡ v)
      × (zigzag_of 64 v < 2 ^ 64)
      × (zigzag_of 64 v ≡ (if leb (2 ^ 63) v then 2 * (2 ^ 64 - v) - 1 else 2 * v))
zigzag64 v h = (
  ground (arith, encode_lem64 v, decode_even 64 (zigzag_of 64 v), decode_odd 64 (zigzag_of 64 v)),
  ground (arith, encode_lem64 (decode_zigzag 64 v), decode_even 64 v, decode_odd 64 v),
  ground (arith, encode_lem64 v),
  encode_lem64 v h,
)
