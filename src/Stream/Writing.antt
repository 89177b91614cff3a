-- ===== src/Stream/Writing.antt =====
-- writeFixSize of src/stream/stream.cc, from a buffer, with the stream's `write` as an argument.
use phase.Base.{
  ◌%◌, ◌^◌, ltb, if◌then◌else◌, ℕ, zero, suc, ◌+◌, ◌-◌, ◌≤◌, ◌<◌, ◌≡◌, refl, ap, sym, ◌∙◌, true,
  false, Option, none, some, List, [], ◌∷◌, ◌++◌, arith, length, take, drop, ◌==◌, append_assoc,
  append-nil, length-take, length-drop, drop-drop, take-append-drop, Bool-cases, inl, inr, ◌⊎◌,
}
use phase.Stream.Reading.{Fixed, all_moved, was_ended, was_broken}

-- What `write` returns: one more byte than this, 0, or less.
pub data Sent : Type 0 where
  sent : ℕ → Sent
  sent_none : Sent
  sent_error : Sent

abbrev none_taken : List ℕ
none_taken = []

take_none : (n : ℕ) → take n none_taken ≡ []
take_none zero = refl
take_none (suc n) = refl

drop-take : (m n : ℕ) (xs : List ℕ) → drop m (take n xs) ≡ take (n - m) (drop m xs)
drop-take zero n xs = ap (λ k. take k xs) (omega arith)
drop-take (suc m) zero xs =
    ap (λ k. take k (drop (suc m) xs)) (let e : 0 ≡ 0 - suc m = omega arith in e)
drop-take (suc m) (suc n) [] = sym (take_none (suc n - suc m))
drop-take (suc m) (suc n) (x ∷ xs) = drop-take m n xs ∙ ap (λ k. take k (drop m xs)) (omega arith)

-- What a part of the bytes leaves.
pieces :
    (buffer : List ℕ) (offset left m : ℕ)
    → take m (take left (drop offset buffer)) ++ take (left - m) (drop (offset + m) buffer)
      ≡ take left (drop offset buffer)
pieces buffer offset left m =
    ap (λ z. take m (take left (drop offset buffer)) ++ take (left - m) z)
      (sym (drop-drop m offset buffer))
    ∙ ap (λ z. take m (take left (drop offset buffer)) ++ z)
        (sym (drop-take m left (drop offset buffer)))
    ∙ take-append-drop m (take left (drop offset buffer))

Sent-cases : (t : Sent) → ((n : ℕ) × (t ≡ sent n)) ⊎ (t ≡ sent_none) ⊎ (t ≡ sent_error)
Sent-cases (sent n) = inl (n, refl)
Sent-cases sent_none = inr (inl refl)
Sent-cases sent_error = inr (inr refl)

module _ {S : Type 0} (write : S → List ℕ → Sent × S) where
  -- The loop; `left` bytes of the buffer from `offset` on are still to be written.
  unfoldable pub write_loop : ℕ → ℕ → S → List ℕ → ℕ → ℕ → Option (Fixed × S)
  write_loop size zero s buffer offset left = none
  write_loop size (suc fuel) s buffer offset left = elim (left == 0) [
    | true ↦ some (all_moved (size % 2 ^ 32), s)
    | false ↦ elim (write s (take left (drop offset buffer))).0 [
      | sent n ↦
          write_loop size fuel (write s (take left (drop offset buffer))).1 buffer (offset + suc n)
            (left - suc n)
      | sent_none ↦ some (was_ended, (write s (take left (drop offset buffer))).1)
      | sent_error ↦ some (was_broken, (write s (take left (drop offset buffer))).1)
    ]
  ]

  -- A round for every byte and one more are enough.
  unfoldable pub write_fix_size : S → List ℕ → ℕ → Option (Fixed × S)
  unfolding write_loop
  write_fix_size s buffer len =
      write_loop len (suc len) s buffer 0 (if ltb len (2 ^ 63) then len else 0)

  write_loop_round :
      (size fuel : ℕ) (s : S) (buffer : List ℕ) (offset left n : ℕ)
      → (left == 0) ≡ false
      → (write s (take left (drop offset buffer))).0 ≡ sent n
      → write_loop size (suc fuel) s buffer offset left
        ≡ write_loop size fuel
            (write s (take left (drop offset buffer))).1
            buffer
            (offset + suc n)
            (left - suc n)
  unfolding write_loop
  write_loop_round size fuel s buffer offset left n e f = rw (e, f, write_loop) refl

  -- What a write does with bytes: it takes at least the first, in order behind what it took before.
  abbrev pub Accepts : (S → List ℕ) → S → List ℕ → Type 0
  Accepts accepted s [] = Unit
  Accepts accepted s (c ∷ rest) =
      (n : ℕ) × ((write s (c ∷ rest)).0 ≡ sent n)
      × (n ≤ length rest)
      × (accepted (write s (c ∷ rest)).1 ≡ accepted s ++ take (suc n) (c ∷ rest))

  write_loop-total :
      (size fuel : ℕ) (s : S) (buffer : List ℕ) (offset left : ℕ)
      → left < fuel
      → (r : Fixed × S) × (write_loop size fuel s buffer offset left ≡ some r)
  unfolding write_loop
  write_loop-total size zero s buffer offset left h = absurd (omega arith)
  write_loop-total size (suc fuel) s buffer offset left h = elim (Bool-cases (left == 0)) [
    | inl e ↦ ((all_moved (size % 2 ^ 32), s), rw (e, write_loop) refl)
    | inr e ↦ elim (Sent-cases (write s (take left (drop offset buffer))).0) [
      | inl (n, f) ↦
          let (r, result) =
            write_loop-total size fuel (write s (take left (drop offset buffer))).1 buffer
              (offset + suc n) (left - suc n) (ground arith) in
          (r, write_loop_round size fuel s buffer offset left n e f ∙ result)
      | inr (inl f) ↦
          ((was_ended, (write s (take left (drop offset buffer))).1), rw (e, f, write_loop) refl)
      | inr (inr f) ↦
          ((was_broken, (write s (take left (drop offset buffer))).1), rw (e, f, write_loop) refl)
    ]
  ]

  -- Whatever the stream's `write` does, writeFixSize ends within its rounds.
  pub write_fix_size-total :
      (s : S) (buffer : List ℕ) (len : ℕ) → (r : Fixed × S) × (write_fix_size s buffer len ≡ some r)
  unfolding write_fix_size
  write_fix_size-total s buffer len =
      write_loop-total len (suc len) s buffer 0 (if ltb len (2 ^ 63) then len else 0) (ground arith)

module _ {S : Type 0} (write : S → List ℕ → Sent × S) (accepted : S → List ℕ)
    (accepts : (s : S) (bytes : List ℕ) → Accepts write accepted s bytes) where
  accepts_some :
      (s : S) (bytes : List ℕ)
      → 0 < length bytes
      → (n : ℕ) × ((write s bytes).0 ≡ sent n)
        × (suc n ≤ length bytes)
        × (accepted (write s bytes).1 ≡ accepted s ++ take (suc n) bytes)
  accepts_some s [] h = absurd (omega arith)
  accepts_some s (c ∷ rest) h =
      let (n, took, few, grown) = accepts s (c ∷ rest) in (n, took, omega (arith, few), grown)

  write_loop_lem :
      (size fuel : ℕ) (s : S) (buffer : List ℕ) (offset left : ℕ)
      → left < fuel
      → offset + left ≤ length buffer
      → (s' : S) × (write_loop write size fuel s buffer offset left
          ≡ some (all_moved (size % 2 ^ 32), s'))
        × (accepted s' ≡ accepted s ++ take left (drop offset buffer))
  unfolding write_loop
  write_loop_lem size zero s buffer offset left h k = absurd (omega arith)
  write_loop_lem size (suc fuel) s buffer offset zero h k = (s, refl, sym (append-nil (accepted s)))
  write_loop_lem size (suc fuel) s buffer offset (suc left) h k =
      let bytes : List ℕ = take (suc left) (drop offset buffer) in
      let counted : length bytes ≡ suc left =
        omega (arith, k, length-take (suc left) (drop offset buffer), length-drop offset buffer) in
      let (n, took, few, grown) = accepts_some s bytes (omega (arith, counted)) in
      let t : S = (write s bytes).1 in
      let (u, result, more) =
        write_loop_lem size fuel t buffer (offset + suc n) (suc left - suc n) (omega (arith, h))
          (omega (arith, k, few, counted)) in
      (
        u,
        write_loop_round write size fuel s buffer offset (suc left) n (ground arith) took ∙ result,
        more
            ∙ ap (λ z. z ++ take (suc left - suc n) (drop (offset + suc n) buffer)) grown
            ∙ append_assoc (accepted s) (take (suc n) bytes) _
            ∙ ap (λ z. accepted s ++ z) (pieces buffer offset (suc left) (suc n)),
      )

  -- To a stream that takes at least one byte at a time, writeFixSize of less than 2^31 bytes returns their
  -- number, and the stream has taken the first bytes of the buffer, in order.
  pub write_fix_size_lem :
      (s : S) (buffer : List ℕ) (len : ℕ)
      → len < 2 ^ 31
      → len ≤ length buffer
      → (s' : S) × (write_fix_size write s buffer len ≡ some (all_moved len, s'))
        × (accepted s' ≡ accepted s ++ take len buffer)
  unfolding write_fix_size
  write_fix_size_lem s buffer len h k =
      let (s', result, taken) =
        write_loop_lem len (suc len) s buffer 0 len (omega arith) (omega (arith, k)) in
      (
        s',
        ap (λ left. write_loop write len (suc len) s buffer 0 left) (within len h)
            ∙ result
            ∙ ap (λ n. some (all_moved n, s')) (omega (arith, h)),
        taken,
      )
    where
      within : (n : ℕ) → n < 2 ^ 31 → (if ltb n (2 ^ 63) then n else 0) ≡ n
      within n few = ground (arith, few)
