-- ===== src/ByteArray/Varint.antt =====
-- The variable-length encoding on bytes: writeUint32 and writeUint64 against readUint32 and readUint64.
use phase.Base.{
  ℕ, zero, suc, ◌+◌, ◌/◌, ◌%◌, ◌^◌, ◌<◌, ◌≤◌, ◌≡◌, ap, ◌∙◌, arith, List, [], ◌∷◌, some, length, ltb,
  bit_and, bit_or, if◌then◌else◌, All,
}
use native.Mathlib.Nat.{pow-suc}
use phase.Base.Bits.{and_mask, or_shifted}
use phase.ByteArray.Wire.{IsByte}
use phase.ByteArray.Codec.{encode_varint}

-- The same groups in plain arithmetic, for `v` below 128 ^ (k + 1).
abbrev pub groups : ℕ → ℕ → List ℕ
groups zero v = v ∷ []
groups (suc k) v =
    let rest = groups k (v / 128) in if ltb v 128 then v ∷ [] else (v % 128 + 128) ∷ rest

high_bit : (v : ℕ) → bit_or (bit_and v 0x7f) 0x80 ≡ v % 128 + 128
high_bit v = ap (λ t. bit_or t 0x80) (and_mask 7 v) ∙ or_shifted 7 (v % 128) 1 (omega arith)

-- The loop of writeUint32 and writeUint64 gives the base-128 digits of a value below 128 ^ (k + 1),
-- and the `k + 1` bytes of `tmp` are enough for it.
pub encode_varint-groups : (k v : ℕ) → v < 128 ^ suc k → encode_varint (suc k) v ≡ some (groups k v)
unfolding encode_varint
encode_varint-groups zero v h = ground arith
encode_varint-groups (suc k) v h =
    ground
      (arith, high_bit v, encode_varint-groups k (v / 128) (omega (arith, pow-suc 128 (suc k))))

pub groups-shape :
    (k v : ℕ)
    → v < 128 ^ suc k
    → All IsByte (groups k v) × (0 < length (groups k v)) × (length (groups k v) ≤ suc k)
groups-shape zero v h = omega arith
groups-shape (suc k) v h =
    ground (arith, groups-shape k (v / 128) (omega (arith, pow-suc 128 (suc k))))
