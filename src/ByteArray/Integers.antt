-- ===== src/ByteArray/Integers.antt =====
-- The readers and writers of integers and strings. `host` is the byte order of the machine.
use phase.Base.{
  ℕ, zero, suc, ◌+◌, ◌*◌, ◌%◌, ◌^◌, none, some, List, length, ltb, bit_and, bit_or, if◌then◌else◌,
}
use phase.ByteArray.State.{ByteArray, Endian, Result, ok, fault, ◌>>=◌, write, read}
use phase.ByteArray.Codec.{store, load, swap_for, encode_zigzag, decode_zigzag, encode_varint}

module _ (host : Endian) where
  -- writeFint8 and writeFuint8
  unfoldable pub write_fuint8 : ByteArray → ℕ → Result ByteArray
  write_fuint8 b v = write b (store host 1 v)

  -- writeFint16, writeFuint16 and so on up to 64 bits, for `n` of 2, 4 and 8 bytes
  unfoldable pub write_fixed : ℕ → ByteArray → ℕ → Result ByteArray
  write_fixed n b v = write b (store host n (swap_for host b.endian n v))

  unfoldable pub read_fuint8 : ByteArray → Result (ℕ × ByteArray)
  read_fuint8 b = do (bytes, c) ← read b 1; ok (load host bytes, c)

  unfoldable pub read_fixed : ℕ → ByteArray → Result (ℕ × ByteArray)
  read_fixed n b = do (bytes, c) ← read b n; ok (swap_for host b.endian n (load host bytes), c)

  -- readUint32 and readUint64: `rounds` of the loop are left, at shift `i`, for `w` bits.
  unfoldable pub read_varint : ℕ → ℕ → ℕ → ℕ → ByteArray → Result (ℕ × ByteArray)
  unfolding read_fuint8
  read_varint w zero i result b = ok (result, b)
  read_varint w (suc rounds) i result b = do
    (byte, c) ← read_fuint8 b
    let next = read_varint w rounds (i + 7) (bit_or result (bit_and byte 0x7f * 2 ^ i % 2 ^ w)) c
    if ltb byte 0x80 then ok (bit_or result (byte * 2 ^ i % 2 ^ w), c) else next

  unfoldable pub read_uint32 : ByteArray → Result (ℕ × ByteArray)
  unfolding read_varint
  read_uint32 b = read_varint 32 5 0 0 b

  unfoldable pub read_uint64 : ByteArray → Result (ℕ × ByteArray)
  unfolding read_varint
  read_uint64 b = read_varint 64 10 0 0 b

  unfoldable pub read_int32 : ByteArray → Result (ℕ × ByteArray)
  read_int32 b = do (v, c) ← read_uint32 b; ok (decode_zigzag 32 v, c)

  unfoldable pub read_int64 : ByteArray → Result (ℕ × ByteArray)
  read_int64 b = do (v, c) ← read_uint64 b; ok (decode_zigzag 64 v, c)

-- `write(tmp, i)`; a write past `tmp` is not defined, and never happens.
unfoldable pub write_varint : ℕ → ByteArray → ℕ → Result ByteArray
write_varint room b v = elim (encode_varint room v) [ none ↦ fault | some bytes ↦ write b bytes ]

unfoldable pub write_uint32 : ByteArray → ℕ → Result ByteArray
unfolding write_varint
write_uint32 b v = write_varint 5 b v

unfoldable pub write_uint64 : ByteArray → ℕ → Result ByteArray
unfolding write_varint
write_uint64 b v = write_varint 10 b v

unfoldable pub write_int32 : ByteArray → ℕ → Result ByteArray
unfolding encode_zigzag
write_int32 b v = elim (encode_zigzag 32 v) [ none ↦ fault | some code ↦ write_uint32 b code ]

unfoldable pub write_int64 : ByteArray → ℕ → Result ByteArray
unfolding encode_zigzag
write_int64 b v = elim (encode_zigzag 64 v) [ none ↦ fault | some code ↦ write_uint64 b code ]

module _ (host : Endian) where
  -- writeStringF16, F32 and F64, for `n` of 2, 4 and 8: the length is cut to the field.
  unfoldable pub write_string_fixed : ℕ → ByteArray → List ℕ → Result ByteArray
  write_string_fixed n b value = do c ← write_fixed host n b (length value % 256 ^ n); write c value

  unfoldable pub read_string_fixed : ℕ → ByteArray → Result (List ℕ × ByteArray)
  read_string_fixed n b = do (len, c) ← read_fixed host n b; read c len

  unfoldable pub read_string_vint : ByteArray → Result (List ℕ × ByteArray)
  read_string_vint b = do (len, c) ← read_uint64 host b; read c len

unfoldable pub write_string_vint : ByteArray → List ℕ → Result ByteArray
write_string_vint b value = do c ← write_uint64 b (length value); write c value
