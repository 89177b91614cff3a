-- ===== src/ByteArray/Tests.antt =====
-- The theorems on the ByteArray at concrete arrays.
use phase.Base.{ℕ, max, ◌^◌, inl, ◌≡◌, refl, arith, Option, none, some, List, [], ◌∷◌}
use phase.ByteArray.State.{little, big, ByteArray, ok, fault, node_ptr, make}
use phase.ByteArray.Position.{set_position}
use phase.ByteArray.Valid.{IsValid}
use phase.ByteArray.Integers.{write_int64, read_int64}
use phase.ByteArray.Writing.{Writes, write-Writes}
use phase.ByteArray.Reading.{Reads, read_within}
use phase.ByteArray.Moving.{make-IsValid, set_position-IsValid}
use phase.ByteArray.RoundTrip.{ReadsBack, read_int64-write_int64}

-- Nodes of four bytes.
abbrev four : ByteArray
four = make 4

four-IsValid : IsValid four
four-IsValid = (make-IsValid 4 (omega arith) (omega arith)).0

abbrev six : List ℕ
six = 1 ∷ 2 ∷ 3 ∷ 4 ∷ 5 ∷ 6 ∷ []

write-Writes_example : (c : ByteArray) × Writes four six c
write-Writes_example = write-Writes four six four-IsValid (unfold make in omega arith)

set_position-IsValid_example :
    (c : ByteArray) × (set_position four 3 ≡ ok c)
    × IsValid c
    × (c.position ≡ 3)
    × (c.size ≡ max four.size 3)
    × (c.nodes ≡ four.nodes)
    × (c.capacity ≡ four.capacity)
    × (c.endian ≡ four.endian)
    × (c.base_size ≡ four.base_size)
set_position-IsValid_example = set_position-IsValid four 3 four-IsValid (unfold make in omega arith)

-- Four bytes in the memory, the position at the first or behind the last.
abbrev full_at : ℕ → Option ℕ → ByteArray
full_at p cur = record {
  base_size = 4;
  position = p;
  capacity = 4;
  size = 4;
  endian = big;
  nodes = (7 ∷ 8 ∷ 9 ∷ 10 ∷ []) ∷ [];
  cur = cur;
}

full_at_one-IsValid : IsValid (full_at 1 (some 0))
full_at_one-IsValid = record {
  base_pos = omega arith;
  has_root = omega arith;
  full = (refl, tt);
  capacity_eq = refl;
  position_le = omega arith;
  size_le = omega arith;
  small = omega arith;
  cur_eq = unfold node_ptr in refl;
}

full_at_end-IsValid : IsValid (full_at 4 none)
full_at_end-IsValid = record {
  base_pos = omega arith;
  has_root = omega arith;
  full = (refl, tt);
  capacity_eq = refl;
  position_le = omega arith;
  size_le = omega arith;
  small = omega arith;
  cur_eq = unfold node_ptr in refl;
}

read_within_example : (bytes : List ℕ) × (c : ByteArray) × Reads (full_at 1 (some 0)) 2 bytes c
read_within_example =
    read_within (full_at 1 (some 0)) 2 full_at_one-IsValid (omega arith) (omega arith)

read_int64-write_int64_example :
    ReadsBack (write_int64 four 7) (read_int64 little) four.position 7
    × (write_int64 four (2 ^ 63) ≡ fault)
read_int64-write_int64_example =
    read_int64-write_int64 little four four-IsValid 7 (2 ^ 63) (omega arith) (inl (omega arith))
      (omega arith) (omega arith) (unfold make in omega arith)
