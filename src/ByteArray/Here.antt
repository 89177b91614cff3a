-- ===== src/ByteArray/Here.antt =====
-- The node of `m_cur`: where the position lies in the concatenation of the nodes.
use phase.Base.{
  ℕ, ◌+◌, ◌*◌, ◌/◌, ◌%◌, ◌≤◌, ◌<◌, ◌≡◌, ap, ◌∙◌, arith, length, take, drop, some, length-append,
  length-take,
}
use phase.ByteArray.Memory.{flat}
use phase.ByteArray.State.{ByteArray, node_ptr}
use phase.ByteArray.Valid.{IsValid, contents}
use phase.ByteArray.Grow.{div-lt_count}
use phase.ByteArray.Flat.{length-flat, All-take, flat-take-drop}

node_ptr-some : (m i : ℕ) → i < m → node_ptr m i ≡ some i
unfolding node_ptr
node_ptr-some m i h = ground arith

module _ (b : ByteArray) (v : IsValid b) (inside : b.position < b.capacity) where
  abbrev pub here : ℕ
  here = b.position / b.base_size

  abbrev pub offset : ℕ
  offset = b.position % b.base_size

  pub here_inside : here < length b.nodes
  here_inside =
      div-lt_count b.position (length b.nodes) b.base_size v.base_pos
        (omega (arith, v.capacity_eq, inside))

  pub cur-here : b.cur ≡ some here
  cur-here = v.cur_eq ∙ node_ptr-some (length b.nodes) here here_inside

  before : length (flat (take here b.nodes)) ≡ here * b.base_size
  before =
      length-flat b.base_size _ (All-take b.base_size here b.nodes v.full)
      ∙ ap (λ k. k * b.base_size) (omega (arith, length-take here b.nodes, here_inside))

  pub before_offset : length (flat (take here b.nodes)) + offset ≡ b.position
  before_offset = rw before (grind arith)

  pub behind :
      (n : ℕ) → b.position + n ≤ b.capacity → offset + n ≤ length (flat (drop here b.nodes))
  behind n h = omega (
    arith,
    before_offset,
    length-append (flat (take here b.nodes)) (flat (drop here b.nodes)),
    ap length (flat-take-drop b.base_size here b.nodes),
    length-flat b.base_size b.nodes v.full,
    v.capacity_eq,
  )

pub length-contents : (b : ByteArray) → IsValid b → length (contents b) ≡ b.size
unfolding contents
length-contents b v = omega (
  arith,
  length-take b.size (flat b.nodes),
  v.size_le,
  v.capacity_eq,
  length-flat b.base_size b.nodes v.full,
)
