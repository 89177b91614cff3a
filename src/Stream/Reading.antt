-- ===== src/Stream/Reading.antt =====
-- readFixSize of src/stream/stream.cc, into a buffer, with the stream's `read` as an argument.
use phase.Base.{
  ◌%◌, ◌^◌, ltb, if◌then◌else◌, ℕ, zero, suc, ◌+◌, ◌-◌, ◌≤◌, ◌<◌, ◌≡◌, refl, ap, sym, subst, ◌∙◌,
  true, false, Option, none, some, List, [], ◌∷◌, ◌++◌, arith, length, take, drop, ◌==◌,
  append_assoc, append-nil, length-append, take-append_right, drop-append_right, Bool-cases, inl,
  inr, ◌⊎◌,
}

-- What `read` returns: the bytes it put into the buffer, at least one; 0; or less.
pub data Transfer : Type 0 where
  moved : ℕ → List ℕ → Transfer
  ended : Transfer
  broken : Transfer

-- What readFixSize returns: its length as an int, of which this is the bit pattern; 0; or less.
pub data Fixed : Type 0 where
  all_moved : ℕ → Fixed
  was_ended : Fixed
  was_broken : Fixed

List-cases : (xs : List ℕ) → (xs ≡ []) ⊎ ((c : ℕ) × (rest : List ℕ) × (xs ≡ c ∷ rest))
List-cases [] = inl refl
List-cases (c ∷ rest) = inr (c, rest, refl)

pub Transfer-cases :
    (t : Transfer) → ((b : ℕ) × (bytes : List ℕ) × (t ≡ moved b bytes)) ⊎ (t ≡ ended) ⊎ (t ≡ broken)
Transfer-cases (moved b bytes) = inl (b, bytes, refl)
Transfer-cases ended = inr (inl refl)
Transfer-cases broken = inr (inr refl)

module _ {S : Type 0} (read : S → ℕ → Transfer × S) where
  -- The loop, with what the buffer has so far; each round moves a byte at least. An answer longer than
  -- what was asked for ends the loop, as `left` is then negative.
  unfoldable pub read_loop : ℕ → ℕ → S → ℕ → List ℕ → Option (Fixed × List ℕ × S)
  read_loop size zero s left buffer = none
  read_loop size (suc fuel) s left buffer = elim (left == 0) [
    | true ↦ some (all_moved (size % 2 ^ 32), buffer, s)
    | false ↦ elim (read s left).0 [
      | moved b bytes ↦
          read_loop size fuel (read s left).1 (left - suc (length bytes)) (buffer ++ b ∷ bytes)
      | ended ↦ some (was_ended, buffer, (read s left).1)
      | broken ↦ some (was_broken, buffer, (read s left).1)
    ]
  ]

  -- A round for every byte and one more are enough. `left` is an int64_t: of a length from 2^63 on it is
  -- negative.
  unfoldable pub read_fix_size : S → ℕ → Option (Fixed × List ℕ × S)
  unfolding read_loop
  read_fix_size s len = read_loop len (suc len) s (if ltb len (2 ^ 63) then len else 0) []

  pub read_loop_round :
      (size fuel : ℕ) (s : S) (left : ℕ) (buffer : List ℕ) (b : ℕ) (bytes : List ℕ)
      → (left == 0) ≡ false
      → (read s left).0 ≡ moved b bytes
      → read_loop size (suc fuel) s left buffer
        ≡ read_loop size fuel (read s left).1 (left - suc (length bytes)) (buffer ++ b ∷ bytes)
  unfolding read_loop
  read_loop_round size fuel s left buffer b bytes e f = rw (e, f, read_loop) refl

  read_loop-total :
      (size fuel : ℕ) (s : S) (left : ℕ) (buffer : List ℕ)
      → left < fuel
      → (r : Fixed × List ℕ × S) × (read_loop size fuel s left buffer ≡ some r)
  unfolding read_loop
  read_loop-total size zero s left buffer h = absurd (omega arith)
  read_loop-total size (suc fuel) s left buffer h = elim (Bool-cases (left == 0)) [
    | inl e ↦ ((all_moved (size % 2 ^ 32), buffer, s), rw (e, read_loop) refl)
    | inr e ↦ elim (Transfer-cases (read s left).0) [
      | inl (b, bytes, f) ↦
          let (r, result) =
            read_loop-total size fuel (read s left).1 (left - suc (length bytes))
              (buffer ++ b ∷ bytes) (ground arith) in
          (r, read_loop_round size fuel s left buffer b bytes e f ∙ result)
      | inr (inl f) ↦ ((was_ended, buffer, (read s left).1), rw (e, f, read_loop) refl)
      | inr (inr f) ↦ ((was_broken, buffer, (read s left).1), rw (e, f, read_loop) refl)
    ]
  ]

  -- Whatever the stream's `read` does, readFixSize ends within its rounds, as many as bytes are asked
  -- for and one more.
  pub read_fix_size-total :
      (s : S) (len : ℕ) → (r : Fixed × List ℕ × S) × (read_fix_size s len ≡ some r)
  unfolding read_fix_size
  read_fix_size-total s len =
      read_loop-total len (suc len) s (if ltb len (2 ^ 63) then len else 0) [] (ground arith)

  -- What a read does on a stream that still holds these bytes: it moves at least one of them, the
  -- first, and at most as many as are asked for.
  abbrev pub Delivers : (S → List ℕ) → S → ℕ → List ℕ → Type 0
  Delivers content s n [] = Unit
  Delivers content s n (c ∷ rest) =
      (bytes : List ℕ) × ((read s n).0 ≡ moved c bytes)
      × (length bytes < n)
      × (c ∷ rest ≡ (c ∷ bytes) ++ content (read s n).1)

module _ {S : Type 0} (read : S → ℕ → Transfer × S) (content : S → List ℕ)
    (delivers : (s : S) (n : ℕ) → Delivers read content s (suc n) (content s)) where
  read_loop_lem :
      (size fuel : ℕ) (s : S) (left : ℕ) (buffer : List ℕ)
      → left < fuel
      → left ≤ length (content s)
      → (s' : S) × (read_loop read size fuel s left buffer
          ≡ some (all_moved (size % 2 ^ 32), buffer ++ take left (content s), s'))
        × (content s' ≡ drop left (content s))
  unfolding read_loop
  read_loop_lem size zero s left buffer h k = absurd (omega arith)
  read_loop_lem size (suc fuel) s zero buffer h k =
      (s, ap (λ z. some (all_moved (size % 2 ^ 32), z, s)) (sym (append-nil buffer)), refl)
  read_loop_lem size (suc fuel) s (suc left) buffer h k = elim (List-cases (content s)) [
    | inl e ↦ absurd (omega (arith, k, ap length e))
    | inr (c, rest, e) ↦
        let (bytes, moves, few, cut) =
          subst (Delivers read content s (suc left)) e (delivers s left) in
        let t : S = (read s (suc left)).1 in
        let whole : content s ≡ (c ∷ bytes) ++ content t = e ∙ cut in
        let counted : length (content s) ≡ suc (length bytes) + length (content t) =
          ap length whole ∙ length-append (c ∷ bytes) (content t) in
        let (u, result, left_over) =
          read_loop_lem size fuel t (suc left - suc (length bytes)) (buffer ++ c ∷ bytes)
            (omega (arith, h)) (omega (arith, k, counted)) in
        (
          u,
          read_loop_round read size fuel s (suc left) buffer c bytes (ground arith) moves
              ∙ result
              ∙ ap (λ z. some (all_moved (size % 2 ^ 32), z, u))
                  (append_assoc buffer (c ∷ bytes) _
                    ∙ ap (λ z. buffer ++ z)
                        (sym (
                          ap (take (suc left)) whole
                          ∙ take-append_right (c ∷ bytes) (content t) (suc left)
                              (omega (arith, few))))),
          left_over
              ∙ sym (
                  ap (drop (suc left)) whole
                  ∙ drop-append_right (c ∷ bytes) (content t) (suc left) (omega (arith, few))),
        )
  ]

  -- From a stream that still holds enough bytes and gives at least one at a time, readFixSize of less than
  -- 2^31 bytes returns their number, with the next bytes in the buffer in order, and leaves the bytes
  -- behind them.
  pub read_fix_size_lem :
      (s : S) (len : ℕ)
      → len < 2 ^ 31
      → len ≤ length (content s)
      → (s' : S) × (read_fix_size read s len ≡ some (all_moved len, take len (content s), s'))
        × (content s' ≡ drop len (content s))
  unfolding read_fix_size
  read_fix_size_lem s len h k =
      let (s', result, rest) = read_loop_lem len (suc len) s len [] (omega arith) k in
      (
        s',
        ap (λ left. read_loop read len (suc len) s left []) (within len h)
            ∙ result
            ∙ ap (λ n. some (all_moved n, take len (content s), s')) (omega (arith, h)),
        rest,
      )
    where
      within : (n : ℕ) → n < 2 ^ 31 → (if ltb n (2 ^ 63) then n else 0) ≡ n
      within n few = ground (arith, few)
