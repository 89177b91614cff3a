-- ===== src/ByteArray/Reading.antt =====
-- read of a valid array does what `get` does to the tape.
use phase.Base.{
  ℕ, ◌+◌, ◌-◌, ◌/◌, ◌≤◌, ◌<◌, ◌≡◌, refl, ap, sym, ◌∙◌, false, List, arith, length, take, drop, some,
  ltb, add64, drop-append_right, take-append-drop,
}
use phase.ByteArray.Memory.{flat, take-drop-append_left}
use phase.ByteArray.State.{ByteArray, ok, node_ptr, read, get_read_size}
use phase.ByteArray.Valid.{IsValid, contents}
use phase.ByteArray.Access.{Read, read_nodes-Read}
use phase.ByteArray.Flat.{All-drop, flat-take-drop, move_node}
use phase.ByteArray.Tape.{get, view}
use phase.ByteArray.Here.{here, offset, cur-here, before_offset, behind, length-contents}

-- A read that succeeds as the tape's does.
pub record Reads (b : ByteArray) (n : ℕ) (bytes : List ℕ) (c : ByteArray) : Type 0 where
  pub returns : read b n ≡ ok (bytes, c)
  pub valid : IsValid c
  pub view_eq : get (view b) n ≡ some (bytes, view c)
  pub bytes_eq : bytes ≡ take n (drop b.position (contents b))
  pub position_eq : c.position ≡ b.position + n
  pub contents_eq : contents c ≡ contents b
  pub endian_eq : c.endian ≡ b.endian
  pub base_eq : c.base_size ≡ b.base_size

pub get_read_size_lem : (b : ByteArray) → IsValid b → get_read_size b ≡ b.size - b.position
unfolding get_read_size
get_read_size_lem b v = omega (arith, v.position_le, v.size_le, v.small)

-- The part of the memory behind the node of the position.
module _ (b : ByteArray) (v : IsValid b) (inside : b.position < b.capacity) (n : ℕ)
    (fits : b.position + n ≤ b.size) where
  abbrev pub bytes_read : List ℕ
  bytes_read = take n (drop b.position (flat b.nodes))

  abbrev after_read : ByteArray
  after_read = record b {
    position = b.position + n;
    cur = node_ptr (length b.nodes) ((b.position + n) / b.base_size);
  }

  reading : Read b.base_size v.base_pos (drop (here b v inside) b.nodes) (offset b v inside) n
  reading =
      read_nodes-Read b.base_size v.base_pos _ _ n
        (All-drop b.base_size (here b v inside) b.nodes v.full) (grind arith)
        (behind b v inside n (omega (arith, v.size_le)))

  bytes_here :
      take n (drop (offset b v inside) (flat (drop (here b v inside) b.nodes))) ≡ bytes_read
  bytes_here = ap (take n) (
      sym (
        ap (drop b.position) (sym (flat-take-drop b.base_size (here b v inside) b.nodes))
        ∙ drop-append_right (flat (take (here b v inside) b.nodes)) _ b.position
            (omega (arith, before_offset b v inside))
        ∙ ap (λ k. drop k (flat (drop (here b v inside) b.nodes)))
            (omega (arith, before_offset b v inside))))

  enough : ltb (get_read_size b) n ≡ false
  enough = rw (get_read_size_lem b v) (ground arith)

  within_size : ltb (b.size - b.position) n ≡ false
  within_size = ground arith

  node_after : here b v inside + reading.moved ≡ (b.position + n) / b.base_size
  node_after = rw reading.moved_eq (move_node b.base_size b.position n v.base_pos)

  position_after : add64 b.position n ≡ b.position + n
  position_after = omega (arith, fits, v.size_le, v.small)

  read-after_read : read b n ≡ ok (bytes_read, after_read)
  unfolding read
  read-after_read =
      rw (enough, cur-here b v inside, reading.runs)
        λ i. ok (
          bytes_here i,
          record after_read {
            position = position_after i;
            cur = node_ptr (length b.nodes) (node_after i);
          },
        )

  after_read-IsValid : IsValid after_read
  after_read-IsValid = record {
    base_pos = v.base_pos;
    has_root = v.has_root;
    full = v.full;
    capacity_eq = v.capacity_eq;
    position_le = fits;
    size_le = v.size_le;
    small = v.small;
    cur_eq = refl;
  }

  bytes_read-contents : bytes_read ≡ take n (drop b.position (contents b))
  unfolding contents
  bytes_read-contents =
      ap (λ l. take n (drop b.position l)) (sym (take-append-drop b.size (flat b.nodes)))
      ∙ take-drop-append_left n b.position (take b.size (flat b.nodes)) _
          (omega (arith, fits, length-contents b v))

  pub read-Reads : Reads b n bytes_read after_read
  unfolding get view
  read-Reads = record {
    returns = read-after_read;
    valid = after_read-IsValid;
    view_eq = rw (length-contents b v, within_size, ← bytes_read-contents);
    bytes_eq = bytes_read-contents;
    position_eq = refl;
    contents_eq = unfold contents in refl;
    endian_eq = refl;
    base_eq = refl;
  }

-- Reading at most what is left in a valid array, with the position before the capacity, gives the
-- bytes and the new position that the tape's `get` gives, and leaves a valid array of the same bytes.
pub read_within :
    (b : ByteArray) (n : ℕ)
    → IsValid b
    → b.position + n ≤ b.size
    → b.position < b.capacity
    → (bytes : List ℕ) × (c : ByteArray) × Reads b n bytes c
read_within b n v fits inside = (_, _, read-Reads b v inside n fits)
