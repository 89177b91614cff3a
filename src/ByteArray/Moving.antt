-- ===== src/ByteArray/Moving.antt =====
-- make, setPosition and clear on valid arrays, and the round trip through all of them.
use phase.Base.{
  ℕ, zero, suc, ◌+◌, ◌-◌, ◌*◌, ◌/◌, ◌≤◌, ◌<◌, max, ◌≡◌, refl, ap, sym, ◌∙◌, inl, inr, false, true,
  List, [], ◌∷◌, ◌++◌, arith, length, take, drop, All, some, none, ltb, ◌==◌, if◌then◌else◌,
  append-nil, Bool-cases,
}
use phase.ByteArray.Memory.{IsFull, splice}
use phase.ByteArray.State.{
  ByteArray, ok, node_ptr, write, read, get_read_size, out_of_range, fault, make,
}
use phase.ByteArray.Valid.{IsValid, limit, contents}
use phase.ByteArray.Grow.{count-mul-div, length-new_node}
use phase.ByteArray.Flat.{All-take}
use phase.ByteArray.Tape.{put, view}
use phase.ByteArray.Here.{length-contents}
use phase.ByteArray.Writing.{Writes, write-Writes}
use phase.ByteArray.Position.{walk, set_position, clear}

root_ptr : (base : ℕ) → 0 < base → some 0 ≡ node_ptr 1 (0 / base)
unfolding node_ptr
root_ptr base h = ground arith

-- A new array with nodes of `base` bytes, `base` positive and below the limit, is valid and empty.
pub make-IsValid :
    (base : ℕ) → 0 < base → base < limit → IsValid (make base) × (contents (make base) ≡ [])
unfolding make contents
make-IsValid base h k = (
  record {
    base_pos = h;
    has_root = omega arith;
    full = (length-new_node base, tt);
    capacity_eq = omega arith;
    position_le = omega arith;
    size_le = omega arith;
    small = k;
    cur_eq = root_ptr base h;
  },
  refl,
)

more_nodes : (m base p : ℕ) → base < p → p ≤ suc m * base → 0 < m
more_nodes m base p h k = grind arith

skip_node : (base p : ℕ) → 0 < base → base < p → suc ((p - base) / base) ≡ p / base
skip_node base p h k = grind arith

same_node : (base p : ℕ) → 0 < base → p ≤ base → (if p == base then 1 else 0) ≡ p / base
same_node base p h k = grind arith

one-mul-le : (m base : ℕ) → 0 < m → base ≤ m * base
one-mul-le m base h = grind arith

length-take_one : {A : Type 0} (xs : List A) → 0 < length xs → length (take 1 xs) ≡ 1
length-take_one [] h = absurd (omega arith)
length-take_one (x ∷ xs) h = refl

walk-node :
    (base : ℕ) (nodes : List (List ℕ)) (p : ℕ)
    → 0 < base
    → All (IsFull base) nodes
    → 0 < length nodes
    → p ≤ length nodes * base
    → walk nodes p ≡ ok (p / base)
unfolding walk
walk-node base [] p h full k q = absurd (omega arith)
walk-node base (node ∷ nodes) p h (is_full, full) k q = elim (Bool-cases (ltb (length node) p)) [
  | inl e ↦
      rw (e, is_full, walk-node base nodes (p - base) h full (nodes_left e) (grind arith))
        (ap ok (next e))
  | inr e ↦ rw (e, is_full) (ap ok (first e))
]
  where
    nodes_left : ltb (length node) p ≡ true → 0 < length nodes
    nodes_left e = more_nodes (length nodes) base p (ground arith) q

    next : ltb (length node) p ≡ true → suc ((p - base) / base) ≡ p / base
    next e = skip_node base p h (ground arith)

    first : ltb (length node) p ≡ false → (if p == base then 1 else 0) ≡ p / base
    first e = same_node base p h (ground arith)

-- Setting a valid array's position to one up to its capacity succeeds; a position past the size
-- makes that the size, and the memory and the settings stay.
pub set_position-IsValid :
    (b : ByteArray) (v : ℕ)
    → IsValid b
    → v ≤ b.capacity
    → (c : ByteArray) × (set_position b v ≡ ok c)
      × IsValid c
      × (c.position ≡ v)
      × (c.size ≡ max b.size v)
      × (c.nodes ≡ b.nodes)
      × (c.capacity ≡ b.capacity)
      × (c.endian ≡ b.endian)
      × (c.base_size ≡ b.base_size)
unfolding set_position
set_position-IsValid b p v h = (
  record b { position = p; size = max b.size p; cur = node_ptr (length b.nodes) (p / b.base_size) },
  rw
      (
        in_range,
        walk-node b.base_size b.nodes p v.base_pos v.full v.has_root (omega (arith, v.capacity_eq)),
        grows,
      )
      refl,
  record {
    base_pos = v.base_pos;
    has_root = v.has_root;
    full = v.full;
    capacity_eq = v.capacity_eq;
    position_le = omega arith;
    size_le = omega (arith, v.size_le);
    small = v.small;
    cur_eq = refl;
  },
  refl,
  refl,
  refl,
  refl,
  refl,
  refl,
)
  where
    in_range : ltb b.capacity p ≡ false
    in_range = ground arith

    grows : (if ltb b.size p then p else b.size) ≡ max b.size p
    grows = ground arith

-- A position past the capacity is refused.
pub set_position_past : (b : ByteArray) (v : ℕ) → b.capacity < v → set_position b v ≡ out_of_range
unfolding set_position
set_position_past b v h = ground arith

-- Clearing a valid array leaves a valid, empty one, with the position at the start.
pub clear-IsValid :
    (b : ByteArray)
    → IsValid b
    → IsValid (clear b) × (view (clear b) ≡ record { bytes = []; position = 0 })
unfolding clear view
clear-IsValid b v = (
  record {
    base_pos = v.base_pos;
    has_root = omega (arith, length-take_one b.nodes v.has_root);
    full = All-take b.base_size 1 b.nodes v.full;
    capacity_eq = rw (length-take_one b.nodes v.has_root) (omega arith);
    position_le = omega arith;
    size_le = omega arith;
    small =
        omega (arith, one-mul-le (length b.nodes) b.base_size v.has_root, v.capacity_eq, v.small);
    cur_eq = rw (length-take_one b.nodes v.has_root) (root_ptr b.base_size v.base_pos);
  },
  refl,
)

same_contents : (d c : ByteArray) → d.size ≡ c.size → d.nodes ≡ c.nodes → contents d ≡ contents c
unfolding contents
same_contents d c p q = rw (p, q)

-- The array after `buf` was written and the position set back to where the write began.
pub record Rewound (b : ByteArray) (buf : List ℕ) : Type 0 where
  pub wrote : ByteArray
  pub ready : ByteArray
  pub write_ok : write b buf ≡ ok wrote
  pub set_ok : set_position wrote b.position ≡ ok ready
  pub valid : IsValid ready
  pub contents_eq : contents ready ≡ contents wrote
  pub position_eq : ready.position ≡ b.position
  pub endian_eq : ready.endian ≡ b.endian
  pub end_eq : wrote.position ≡ b.position + length buf
  pub bytes_eq : contents ready ≡ splice b.position buf (contents b)

-- A write of `buf` to a valid array with room, then the position set back: both succeed, and the
-- bytes are those of before with `buf` laid over them.
pub write-Rewound :
    (b : ByteArray) (buf : List ℕ)
    → IsValid b
    → b.position + length buf + b.base_size < limit
    → Rewound b buf
unfolding view put
write-Rewound b buf v fits = record {
  wrote = c;
  ready = moved.0;
  write_ok = w.returns;
  set_ok = moved.1;
  valid = moved.2;
  contents_eq = kept;
  position_eq = moved.3;
  endian_eq = moved.7 ∙ w.endian_eq;
  end_eq = c-position;
  bytes_eq = kept ∙ ap (λ t. t.bytes) w.view_eq;
}
  where
    c : ByteArray
    c = (write-Writes b buf v fits).0

    w : Writes b buf c
    w = (write-Writes b buf v fits).1

    c-position : c.position ≡ b.position + length buf
    c-position = ap (λ t. t.position) w.view_eq

    moved :
        (d : ByteArray) × (set_position c b.position ≡ ok d)
        × IsValid d
        × (d.position ≡ b.position)
        × (d.size ≡ max c.size b.position)
        × (d.nodes ≡ c.nodes)
        × (d.capacity ≡ c.capacity)
        × (d.endian ≡ c.endian)
        × (d.base_size ≡ c.base_size)
    moved = set_position-IsValid c b.position w.valid (omega (arith, c-position, w.valid))

    kept : contents moved.0 ≡ contents c
    kept = same_contents moved.0 c (omega (arith, moved.4, c-position, w.valid)) moved.5

drop-splice :
    (p : ℕ) (buf l : List ℕ)
    → p ≤ length l
    → drop p (splice p buf l) ≡ buf ++ drop (length buf) (drop p l)
drop-splice zero [] l h = refl
drop-splice zero (x ∷ buf) [] h = ap (λ t. x ∷ t) (sym (append-nil buf))
drop-splice zero (x ∷ buf) (y ∷ l) h = ap (◌∷◌ x) (drop-splice zero buf l (omega arith))
drop-splice (suc p) buf [] h = absurd (omega arith)
drop-splice (suc p) buf (y ∷ l) h = drop-splice p buf l (omega arith)

-- So the bytes written lie behind the position.
pub behind-Rewound :
    (b : ByteArray) (buf : List ℕ)
    → IsValid b
    → (r : Rewound b buf)
    → drop r.ready.position (contents r.ready)
      ≡ buf ++ drop (length buf) (drop b.position (contents b))
behind-Rewound b buf v r =
    ap (λ p. drop p (contents r.ready)) r.position_eq
    ∙ ap (drop b.position) r.bytes_eq
    ∙ drop-splice b.position buf (contents b) (omega (arith, length-contents b v, v))

-- At the very end of the memory even a read of no bytes uses the null `m_cur`.
pub read_none_at_capacity : (b : ByteArray) → IsValid b → b.position ≡ b.capacity → read b 0 ≡ fault
unfolding read
read_none_at_capacity b v h = rw (allowed, v.cur_eq, null)
  where
    allowed : ltb (get_read_size b) 0 ≡ false
    allowed = ground arith

    null : node_ptr (length b.nodes) (b.position / b.base_size) ≡ none
    null =
        unfold node_ptr in
        rw (count-mul-div b.position (length b.nodes) b.base_size v.base_pos (h ∙ v.capacity_eq))
          (ground arith)
