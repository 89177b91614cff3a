-- ===== src/ByteArray/Stream.antt =====
-- A valid array as a stream: what is read where known bytes lie behind the position.
use phase.Base.{
  ℕ, suc, ◌+◌, ◌-◌, ◌<◌, ◌≤◌, ◌≡◌, ap, sym, ◌∙◌, arith, List, [], ◌∷◌, ◌++◌, length, take, drop,
  length-append, length-drop, drop-drop, take-append_left, drop-append_right, take_all,
}
use phase.ByteArray.State.{ByteArray, ok, read}
use phase.ByteArray.Valid.{IsValid, contents}
use phase.ByteArray.Here.{length-contents}
use phase.ByteArray.Reading.{Reads, read_within}

-- The bytes still to come.
abbrev pub ahead : ByteArray → List ℕ
ahead b = drop b.position (contents b)

-- `e` is `b` moved on by `n` bytes.
pub record Moved (b : ByteArray) (n : ℕ) (e : ByteArray) : Type 0 where
  pub valid : IsValid e
  pub contents_eq : contents e ≡ contents b
  pub position_eq : e.position ≡ b.position + n
  pub endian_eq : e.endian ≡ b.endian

pub Moved-trans :
    {b c d : ByteArray} (m n k : ℕ) → k ≡ m + n → Moved b m c → Moved c n d → Moved b k d
Moved-trans m n k h p q = record {
  valid = q.valid;
  contents_eq = q.contents_eq ∙ p.contents_eq;
  position_eq = omega (arith, p.position_eq, q.position_eq);
  endian_eq = q.endian_eq ∙ p.endian_eq;
}

-- What lies ahead after a move over known bytes.
pub ahead-Moved :
    {b e : ByteArray} (buf rest : List ℕ)
    → Moved b (length buf) e
    → ahead b ≡ buf ++ rest
    → ahead e ≡ rest
ahead-Moved {b} {e} buf rest m h =
    ap (λ p. drop p (contents e)) m.position_eq
    ∙ ap (drop (b.position + length buf)) m.contents_eq
    ∙ sym (drop-drop (length buf) b.position (contents b))
    ∙ ap (drop (length buf)) h
    ∙ drop-append_right buf rest (length buf) (omega arith)
    ∙ ap (λ k. drop k rest) (let z : length buf - length buf ≡ 0 = omega arith in z)

pub next_byte :
    (b : ByteArray) (x : ℕ) (buf rest : List ℕ)
    → IsValid b
    → ahead b ≡ (x ∷ buf) ++ rest
    → (e : ByteArray) × (read b (suc (length buf)) ≡ ok (x ∷ buf, e)) × Moved b (suc (length buf)) e
next_byte b x buf rest v h = (
  r.1,
  r.2.returns ∙ ap (λ t. ok (t, r.1)) found,
  record {
    valid = r.2.valid;
    contents_eq = r.2.contents_eq;
    position_eq = r.2.position_eq;
    endian_eq = r.2.endian_eq;
  },
)
  where
    enough : b.position + suc (length buf) ≤ b.size
    enough = omega (
      arith,
      ap length h,
      length-append (x ∷ buf) rest,
      length-drop b.position (contents b),
      length-contents b v,
    )

    r : (bytes : List ℕ) × (c : ByteArray) × Reads b (suc (length buf)) bytes c
    r = read_within b (suc (length buf)) v enough (omega (arith, enough, v.size_le))

    found : r.0 ≡ x ∷ buf
    found =
        r.2.bytes_eq
        ∙ ap (take (suc (length buf))) h
        ∙ take-append_left (suc (length buf)) (x ∷ buf) rest (omega arith)
        ∙ take_all (suc (length buf)) (x ∷ buf) (omega arith)

pub next_bytes :
    (b : ByteArray) (buf rest : List ℕ)
    → IsValid b
    → 0 < length buf
    → ahead b ≡ buf ++ rest
    → (e : ByteArray) × (read b (length buf) ≡ ok (buf, e)) × Moved b (length buf) e
next_bytes b [] rest v pos h = absurd (omega arith)
next_bytes b (x ∷ buf) rest v pos h = next_byte b x buf rest v h
