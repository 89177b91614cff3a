-- ===== src/ByteArray/RoundTrip.antt =====
-- Every reader gets back what its writer put into a valid array.
use phase.Base.{
  ℕ, suc, ◌+◌, ◌*◌, ◌^◌, ◌<◌, ◌≤◌, ◌≡◌, ap, sym, subst, ◌⊎◌, true, false, Option, none, some,
  if◌then◌else◌, ◌∙◌, arith, List, ◌++◌, length,
}
use phase.ByteArray.State.{ByteArray, Endian, little, big, Result, ok, fault, ◌>>=◌, read, write}
use phase.ByteArray.Valid.{IsValid, limit}
use phase.ByteArray.Codec.{
  load, le_bytes, swap_for, encode_zigzag, decode_zigzag, zigzag_of, overflows,
}
use phase.ByteArray.Varint.{groups, encode_varint-groups, groups-shape}
use phase.ByteArray.Integers.{
  read_varint, read_uint32, read_uint64, write_varint, read_fixed, write_fixed, read_int32,
  read_int64, write_int32, write_int64, write_uint32, write_uint64,
}
use phase.ByteArray.Zigzag.{zigzag32, zigzag64}
use phase.ByteArray.Wire.{wire, store_swap, length-le_bytes, length-reverse}
use phase.ByteArray.Stream.{next_bytes, ahead, Moved}
use phase.ByteArray.Position.{set_position}
use phase.ByteArray.Tape.{view}
use phase.ByteArray.Moving.{Rewound, write-Rewound, behind-Rewound}
use phase.ByteArray.ReadGroups.{read_groups}

write_varint-groups :
    (b : ByteArray) (k v : ℕ) → v < 128 ^ suc k → write_varint (suc k) b v ≡ write b (groups k v)
unfolding write_varint
write_varint-groups b k v h = rw (write_varint, encode_varint-groups k v h)

length-wire : (e : Endian) (n v : ℕ) → length (wire e n v) ≡ n
length-wire little n v = length-le_bytes n v
length-wire big n v = length-reverse (le_bytes n v) ∙ length-le_bytes n v

next_fixed :
    (host : Endian) (n v : ℕ) (b : ByteArray) (endian : Endian) (rest : List ℕ)
    → IsValid b
    → 0 < n
    → v < 256 ^ n
    → b.endian ≡ endian
    → ahead b ≡ wire endian n v ++ rest
    → (e : ByteArray) × (read_fixed host n b ≡ ok (v, e)) × Moved b (length (wire endian n v)) e
unfolding read_fixed
next_fixed host n v b endian rest valid pos h same front =
    let r =
      next_bytes b (wire endian n v) rest valid (omega (arith, length-wire endian n v)) front in
    (
      r.0,
      ap (λ m. m >>= λ x. ok (swap_for host b.endian n (load host x.0), x.1))
            (ap (read b) (sym (length-wire endian n v)) ∙ r.1)
          ∙ ap (λ t. ok (t, r.0))
              (ap (λ o. swap_for host o n (load host (wire endian n v))) same
                ∙ (store_swap host endian n v h).1),
      r.2,
    )

-- `writing` succeeds on an array with its position at `start`; with the position set back there,
-- `reading` gives `v`, and leaves the array as it was after the write.
pub record ReadsBack {ℓ} {A : Type ℓ} (writing : Result ByteArray)
    (reading : ByteArray → Result (A × ByteArray)) (start : ℕ) (v : A) : Type ℓ where
  pub wrote : ByteArray
  pub ready : ByteArray
  pub after : ByteArray
  pub write_ok : writing ≡ ok wrote
  pub set_ok : set_position wrote start ≡ ok ready
  pub read_ok : reading ready ≡ ok (v, after)
  pub valid : IsValid after
  pub view_eq : view after ≡ view wrote

mapped {ℓ κ} :
    {A : Type ℓ} {B : Type κ} {writing : Result ByteArray}
    {reading : ByteArray → Result (A × ByteArray)} {start : ℕ} {u : A} (f : A → B) (v : B)
    → ReadsBack writing reading start u
    → f u ≡ v
    → ReadsBack writing (λ b. reading b >>= λ r. ok (f r.0, r.1)) start v
mapped f v r e = record {
  wrote = r.wrote;
  ready = r.ready;
  after = r.after;
  write_ok = r.write_ok;
  set_ok = r.set_ok;
  read_ok = ap (λ m. m >>= λ t. ok (f t.0, t.1)) r.read_ok ∙ ap (λ t. ok (t, r.after)) e;
  valid = r.valid;
  view_eq = r.view_eq;
}

module _ (host : Endian) (b : ByteArray) (valid : IsValid b) where
  back {ℓ} :
      {A : Type ℓ} (buf : List ℕ) (reading : ByteArray → Result (A × ByteArray)) (v : A)
      (r : Rewound b buf)
      → (e : ByteArray) × (reading r.ready ≡ ok (v, e)) × Moved r.ready (length buf) e
      → ReadsBack (write b buf) reading b.position v
  unfolding view
  back buf reading v r (e, runs, m) = record {
    wrote = r.wrote;
    ready = r.ready;
    after = e;
    write_ok = r.write_ok;
    set_ok = r.set_ok;
    read_ok = runs;
    valid = m.valid;
    view_eq = λ i. record {
      bytes = (m.contents_eq ∙ r.contents_eq) i;
      position = (m.position_eq ∙ ap (λ k. k + length buf) r.position_eq ∙ sym r.end_eq) i;
    };
  }

  varint-back :
      (k v w : ℕ)
      → v < 2 ^ w
      → v < 128 ^ suc k
      → b.position + suc k + b.base_size < limit
      → ReadsBack (write_varint (suc k) b v) (read_varint host w (suc k) 0 0) b.position v
  varint-back k v w h small fits = rw (write_varint-groups b k v small) (
      back (groups k v) (read_varint host w (suc k) 0 0) v r
        (got.0, got.1 ∙ ap (λ n. ok (n, got.0)) (omega arith), got.2))
    where
      r : Rewound b (groups k v)
      r = write-Rewound b (groups k v) valid (omega (arith, fits, groups-shape k v small))

      got :
          (e : ByteArray) × (read_varint host w (suc k) 0 0 r.ready ≡ ok (0 + v * 2 ^ 0, e))
          × Moved r.ready (length (groups k v)) e
      got =
          read_groups host k v w (suc k) 0 0 r.ready _ r.valid
            (behind-Rewound b (groups k v) valid r) small (omega arith) (omega arith)
            (omega (arith, h))

  -- readUint32 gives back any value below 2^32 that writeUint32 put into a valid array with room.
  pub read_uint32-write_uint32 :
      (v : ℕ)
      → v < 2 ^ 32
      → b.position + 5 + b.base_size < limit
      → ReadsBack (write_uint32 b v) (read_uint32 host) b.position v
  unfolding write_uint32 read_uint32
  read_uint32-write_uint32 v h fits = varint-back 4 v 32 h (omega arith) fits

  -- readUint64 gives back any value below 2^64 that writeUint64 put into a valid array with room.
  pub read_uint64-write_uint64 :
      (v : ℕ)
      → v < 2 ^ 64
      → b.position + 10 + b.base_size < limit
      → ReadsBack (write_uint64 b v) (read_uint64 host) b.position v
  unfolding write_uint64 read_uint64
  read_uint64-write_uint64 v h fits = varint-back 9 v 64 h (omega arith) fits

  -- readInt32 gives back the int32_t (as its bit pattern) that writeInt32 put into a valid array with room,
  -- if it is less than 2^30 and more than -2^31. To write another is undefined, since its encoding
  -- overflows.
  pub read_int32-write_int32 :
      (v beyond : ℕ)
      → v < 2 ^ 32
      → (v < 2 ^ 30) ⊎ (2 ^ 31 < v)
      → 2 ^ 30 ≤ beyond
      → beyond ≤ 2 ^ 31
      → b.position + 5 + b.base_size < limit
      → ReadsBack (write_int32 b v) (read_int32 host) b.position v × (write_int32 b beyond ≡ fault)
  unfolding write_int32 read_int32 encode_zigzag
  read_int32-write_int32 v beyond h small low high fits =
      let safe : overflows 32 v ≡ false = ground (arith, small) in
      let unsafe : overflows 32 beyond ≡ true = ground (arith, low, high) in
      (
        subst (λ r. ReadsBack r (read_int32 host) b.position v)
            (ap (λ o. written (if o then none else some (zigzag_of 32 v))) (sym safe))
            (mapped (decode_zigzag 32) v
              (read_uint32-write_uint32 (zigzag_of 32 v) (zigzag32 v h).2 fits) (zigzag32 v h).0),
        ap (λ o. written (if o then none else some (zigzag_of 32 beyond))) unsafe,
      )
    where
      written : Option ℕ → Result ByteArray
      written o = elim o [ none ↦ fault | some code ↦ write_uint32 b code ]

  -- readInt64 gives back the int64_t (as its bit pattern) that writeInt64 put into a valid array with room,
  -- if it is less than 2^62 and more than -2^63. To write another is undefined, since its encoding
  -- overflows.
  pub read_int64-write_int64 :
      (v beyond : ℕ)
      → v < 2 ^ 64
      → (v < 2 ^ 62) ⊎ (2 ^ 63 < v)
      → 2 ^ 62 ≤ beyond
      → beyond ≤ 2 ^ 63
      → b.position + 10 + b.base_size < limit
      → ReadsBack (write_int64 b v) (read_int64 host) b.position v × (write_int64 b beyond ≡ fault)
  unfolding write_int64 read_int64 encode_zigzag
  read_int64-write_int64 v beyond h small low high fits =
      let safe : overflows 64 v ≡ false = ground (arith, small) in
      let unsafe : overflows 64 beyond ≡ true = ground (arith, low, high) in
      (
        subst (λ r. ReadsBack r (read_int64 host) b.position v)
            (ap (λ o. written (if o then none else some (zigzag_of 64 v))) (sym safe))
            (mapped (decode_zigzag 64) v
              (read_uint64-write_uint64 (zigzag_of 64 v) (zigzag64 v h).2 fits) (zigzag64 v h).0),
        ap (λ o. written (if o then none else some (zigzag_of 64 beyond))) unsafe,
      )
    where
      written : Option ℕ → Result ByteArray
      written o = elim o [ none ↦ fault | some code ↦ write_uint64 b code ]

  -- On a machine of either byte order, and with the array set to either, an integer of `n` bytes that
  -- a fixed-width writer put into a valid array with room is read back.
  pub read_fixed-write_fixed :
      (n v : ℕ)
      → 0 < n
      → v < 256 ^ n
      → b.position + n + b.base_size < limit
      → ReadsBack (write_fixed host n b v) (read_fixed host n) b.position v
  unfolding write_fixed
  read_fixed-write_fixed n v pos h fits =
      rw (store_swap host b.endian n v h).0 (back (wire b.endian n v) (read_fixed host n) v r got)
    where
      r : Rewound b (wire b.endian n v)
      r = write-Rewound b (wire b.endian n v) valid (omega (arith, fits, length-wire b.endian n v))

      got :
          (e : ByteArray) × (read_fixed host n r.ready ≡ ok (v, e))
          × Moved r.ready (length (wire b.endian n v)) e
      got =
          next_fixed host n v r.ready b.endian _ r.valid pos h r.endian_eq
            (behind-Rewound b (wire b.endian n v) valid r)
