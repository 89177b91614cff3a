-- ===== src/ByteArray/ReadGroups.antt =====
-- The loop of readUint32 and readUint64 on the bytes that the writers put out.
use phase.Base.{
  ℕ, zero, suc, ◌+◌, ◌*◌, ◌/◌, ◌%◌, ◌^◌, ◌<◌, ◌≤◌, ◌≡◌, ap, ◌∙◌, arith, List, [], ◌∷◌, ◌++◌, true,
  false, length, ltb, bit_and, bit_or, Bool-cases, inl, inr,
}
use native.Mathlib.Nat.{pow-suc, mod-eq_of_lt, div-add-mod}
use native.Mathlib.Numerals.{towards_suc}
use phase.Base.Bits.{and_mask, or_shifted}
use phase.ByteArray.State.{ByteArray, Endian, little, big, ok}
use phase.ByteArray.Valid.{IsValid}
use phase.ByteArray.Codec.{load}
use phase.ByteArray.Varint.{groups}
use phase.ByteArray.Integers.{read_fuint8, read_varint}
use phase.ByteArray.Stream.{ahead, Moved, Moved-trans, ahead-Moved, next_byte}

load-one : (host : Endian) (x : ℕ) → load host (x ∷ []) ≡ x
unfolding load
load-one little x = omega arith
load-one big x = omega arith

shift_seven : (s : ℕ) → 2 ^ (s + 7) ≡ 128 * 2 ^ s
shift_seven s = simp towards_suc (omega arith)

regroup : (v s : ℕ) → v * 2 ^ s ≡ v % 128 * 2 ^ s + v / 128 * 2 ^ (s + 7)
regroup v s = omega (
  arith,
  ap (λ (t : ℕ). t * 2 ^ s) (div-add-mod v 128),
  ap (λ (t : ℕ). v / 128 * t) (shift_seven s),
)

groups_one : (k v : ℕ) → ltb v 128 ≡ true → groups (suc k) v ≡ v ∷ []
groups_one k v e = rw e

groups_more :
    (k v : ℕ) → ltb v 128 ≡ false → groups (suc k) v ≡ (v % 128 + 128) ∷ groups k (v / 128)
groups_more k v e = rw e

below_seven : (v s : ℕ) → v % 128 * 2 ^ s ≤ 127 * 2 ^ s
below_seven v s = grind arith

module _ (host : Endian) where
  read_byte :
      (b : ByteArray) (x : ℕ) (rest : List ℕ)
      → IsValid b
      → ahead b ≡ x ∷ rest
      → (e : ByteArray) × (read_fuint8 host b ≡ ok (x, e)) × Moved b 1 e
  unfolding read_fuint8
  read_byte b x rest v h =
      let r = next_byte b x [] rest v h in
      (r.0, rw r.1 (ap (λ t. ok (t, r.0)) (load-one host x)), r.2)

  last_group :
      (v w rounds i result : ℕ) (b : ByteArray) (rest : List ℕ)
      → IsValid b
      → ahead b ≡ v ∷ rest
      → v < 128
      → result < 2 ^ i
      → result + v * 2 ^ i < 2 ^ w
      → (e : ByteArray) × (read_varint host w (suc rounds) i result b ≡ ok (result + v * 2 ^ i, e))
        × Moved b 1 e
  unfolding read_varint
  last_group v w rounds i result b rest valid h small low fits =
      let r = read_byte b v rest valid h in
      (r.0, rw r.1 (rw is_last (ap (λ t. ok (t, r.0)) joined)), r.2)
    where
      is_last : ltb v 0x80 ≡ true
      is_last = ground arith

      joined : bit_or result (v * 2 ^ i % 2 ^ w) ≡ result + v * 2 ^ i
      joined =
          ap (bit_or result) (mod-eq_of_lt {n = v * 2 ^ i} {m = 2 ^ w} (omega arith))
          ∙ or_shifted i result v low

  inner_group :
      (v w rounds i result : ℕ) (b : ByteArray) (rest : List ℕ)
      → IsValid b
      → ahead b ≡ (v % 128 + 128) ∷ rest
      → result < 2 ^ i
      → result + v * 2 ^ i < 2 ^ w
      → (e : ByteArray) × (read_varint host w (suc rounds) i result b
          ≡ read_varint host w rounds (i + 7) (result + v % 128 * 2 ^ i) e)
        × Moved b 1 e
  unfolding read_varint
  inner_group v w rounds i result b rest valid h low fits =
      let r = read_byte b (v % 128 + 128) rest valid h in
      (r.0, rw r.1 (rw goes_on (ap (λ t. read_varint host w rounds (i + 7) t r.0) joined)), r.2)
    where
      goes_on : ltb (v % 128 + 128) 0x80 ≡ false
      goes_on = ground arith

      group : bit_and (v % 128 + 128) 0x7f ≡ v % 128
      group = and_mask 7 (v % 128 + 128) ∙ omega arith

      joined :
          bit_or result (bit_and (v % 128 + 128) 0x7f * 2 ^ i % 2 ^ w) ≡ result + v % 128 * 2 ^ i
      joined =
          ap (λ t. bit_or result (t * 2 ^ i % 2 ^ w)) group
          ∙ ap (bit_or result)
              (mod-eq_of_lt {n = v % 128 * 2 ^ i} {m = 2 ^ w} (omega (arith, regroup v i)))
          ∙ or_shifted i result (v % 128) low

  pub read_groups :
      (k v w rounds i result : ℕ) (b : ByteArray) (rest : List ℕ)
      → IsValid b
      → ahead b ≡ groups k v ++ rest
      → v < 128 ^ suc k
      → k < rounds
      → result < 2 ^ i
      → result + v * 2 ^ i < 2 ^ w
      → (e : ByteArray) × (read_varint host w rounds i result b ≡ ok (result + v * 2 ^ i, e))
        × Moved b (length (groups k v)) e
  read_groups k v w zero i result b rest valid h small enough low fits = absurd (omega arith)
  read_groups zero v w (suc rounds) i result b rest valid h small enough low fits =
      last_group v w rounds i result b rest valid h small low fits
  read_groups (suc k) v w (suc rounds) i result b rest valid h small enough low fits =
      elim (Bool-cases (ltb v 128)) [
        | inl e ↦ rw e (
            last_group v w rounds i result b rest valid (h ∙ ap (λ t. t ++ rest) (groups_one k v e))
              (ground arith) low fits)
        | inr e ↦
            let s =
              inner_group v w rounds i result b (groups k (v / 128) ++ rest) valid
                (h ∙ ap (λ t. t ++ rest) (groups_more k v e)) low fits in
            let t =
              read_groups k (v / 128) w rounds (i + 7) (result + v % 128 * 2 ^ i) s.0 rest s.2.valid
                (ahead-Moved ((v % 128 + 128) ∷ []) (groups k (v / 128) ++ rest) s.2
                  (h ∙ ap (λ t. t ++ rest) (groups_more k v e)))
                (omega (arith, pow-suc 128 (suc k))) (omega arith)
                (omega (arith, shift_seven i, below_seven v i)) (omega (arith, regroup v i)) in
            rw e (
              t.0,
              s.1 ∙ t.1 ∙ ap (λ n. ok (n, t.0)) (omega (arith, regroup v i)),
              Moved-trans 1 (length (groups k (v / 128))) _ (omega arith) s.2 t.2,
            )
      ]
