-- ===== src/Stream/Tests.antt =====
-- The loops of src/stream/stream.cc over a stream that is a list of bytes, given two at a time.
use phase.Base.{ℕ, zero, suc, ◌≡◌, refl, some, List, [], ◌∷◌, ◌++◌, arith, take, drop}
use phase.Stream.Reading.{
  Transfer, moved, ended, all_moved, was_ended, read_loop, read_fix_size, Delivers,
  read_fix_size_lem,
}
use phase.Stream.Writing.{Sent, sent, sent_none, Accepts}

abbrev read_two : List ℕ → ℕ → Transfer × List ℕ
read_two [] n = (ended, [])
read_two (c ∷ []) n = (moved c [], [])
read_two (c ∷ (d ∷ rest)) zero = (moved c [], d ∷ rest)
read_two (c ∷ (d ∷ rest)) (suc zero) = (moved c [], d ∷ rest)
read_two (c ∷ (d ∷ rest)) (suc (suc n)) = (moved c (d ∷ []), rest)

two_delivered : (s : List ℕ) (n : ℕ) → Delivers read_two (λ s. s) s (suc n) s
two_delivered [] n = tt
two_delivered (c ∷ []) n = ([], refl, omega arith, refl)
two_delivered (c ∷ (d ∷ rest)) zero = ([], refl, omega arith, refl)
two_delivered (c ∷ (d ∷ rest)) (suc n) = (d ∷ [], refl, omega arith, refl)

abbrev five : List ℕ
five = 1 ∷ 2 ∷ 3 ∷ 4 ∷ 5 ∷ []

read_fix_size_lem_example :
    (s' : List ℕ) × (read_fix_size read_two five 3 ≡ some (all_moved 3, take 3 five, s'))
    × (s' ≡ drop 3 five)
read_fix_size_lem_example =
    read_fix_size_lem read_two (λ s. s) two_delivered five 3 (omega arith) (omega arith)

too_few : read_fix_size read_two five 7 ≡ some (was_ended, five, [])
unfolding read_fix_size read_loop
too_few = refl

-- A stream that takes one byte of what it is given, or two.
abbrev write_two : List ℕ → List ℕ → Sent × List ℕ
write_two s [] = (sent_none, s)
write_two s (c ∷ []) = (sent 0, s ++ c ∷ [])
write_two s (c ∷ (d ∷ rest)) = (sent 1, s ++ c ∷ d ∷ [])

two_accepted : (s bytes : List ℕ) → Accepts write_two (λ s. s) s bytes
two_accepted s [] = tt
two_accepted s (c ∷ []) = (0, refl, omega arith, refl)
two_accepted s (c ∷ (d ∷ rest)) = (1, refl, omega arith, refl)
