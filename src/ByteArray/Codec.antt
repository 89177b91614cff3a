-- ===== src/ByteArray/Codec.antt =====
-- The encodings of integers in src/utils/bytearray.cc and src/socket/include/endians.h, on bytes alone.
-- A signed integer is its bit pattern.
use phase.Base.{
  ℕ, zero, suc, ◌+◌, ◌-◌, ◌*◌, ◌/◌, ◌%◌, ◌^◌, Bool, true, false, Option, none, some, List, [], ◌∷◌,
  reverse, leb, ◌==◌, bit_and, bit_or, bit_xor, if◌then◌else◌,
}
use phase.ByteArray.State.{Endian, little, big}

-- The `n` bytes of an integer, lowest first, and back.
unfoldable pub le_bytes : ℕ → ℕ → List ℕ
le_bytes zero v = []
le_bytes (suc n) v = v % 256 ∷ le_bytes n (v / 256)

unfoldable pub from_le : List ℕ → ℕ
from_le [] = 0
from_le (x ∷ xs) = x + 256 * from_le xs

-- An integer of `n` bytes as it lies in the memory of the host, and back.
unfoldable pub store : Endian → ℕ → ℕ → List ℕ
unfolding le_bytes
store little n v = le_bytes n v
store big n v = reverse (le_bytes n v)

unfoldable pub load : Endian → List ℕ → ℕ
unfolding from_le
load little xs = from_le xs
load big xs = from_le (reverse xs)

-- bswap_16, bswap_32 and bswap_64, for `n` of 2, 4 and 8.
unfoldable pub byteswap : ℕ → ℕ → ℕ
unfolding le_bytes from_le
byteswap n v = from_le (reverse (le_bytes n v))

unfoldable pub same_endian : Endian → Endian → Bool
same_endian little little = true
same_endian big big = true
same_endian _ _ = false

-- `m_endian != PHASE0_BYTE_ORDER`
unfoldable pub swap_for : Endian → Endian → ℕ → ℕ → ℕ
unfolding byteswap same_endian
swap_for host endian n v = if same_endian endian host then v else byteswap n v

-- Whether `-v` or `v * 2` overflows the signed type: `v` is its minimum, or at least a quarter of its range.
abbrev pub overflows : ℕ → ℕ → Bool
overflows w v = if leb (2 ^ (w - 1)) v then v == 2 ^ (w - 1) else leb (2 ^ (w - 2)) v

-- What EncodeZigzag32 and EncodeZigzag64 return, for `w` of 32 and 64, where nothing overflows; the
-- product and the difference of an unsigned type wrap.
unfoldable pub zigzag_of : ℕ → ℕ → ℕ
zigzag_of w v =
    if leb (2 ^ (w - 1)) v then ((2 ^ w - v) % 2 ^ w * 2 + 2 ^ w - 1) % 2 ^ w else v * 2 % 2 ^ w

-- EncodeZigzag32 and EncodeZigzag64; `none` is an overflow of a signed type, which is undefined.
unfoldable pub encode_zigzag : ℕ → ℕ → Option ℕ
unfolding zigzag_of
encode_zigzag w v = if overflows w v then none else some (zigzag_of w v)

unfoldable pub decode_zigzag : ℕ → ℕ → ℕ
decode_zigzag w v = bit_xor (v / 2) ((2 ^ w - bit_and v 1) % 2 ^ w)

-- The loop of writeUint32 and writeUint64. `room` is what is left of `tmp`: `none` is a write past it.
unfoldable pub encode_varint : ℕ → ℕ → Option (List ℕ)
encode_varint zero v = none
encode_varint (suc room) v =
    let rest = encode_varint room (v / 2 ^ 7) in
    if leb 0x80 v
    then elim rest [ none ↦ none | some bytes ↦ some (bit_or (bit_and v 0x7f) 0x80 ∷ bytes) ]
    else some (v ∷ [])
