-- ===== src/ByteArray/Valid.antt =====
-- What holds of a ByteArray between calls, and the byte sequence that it stands for.
use phase.Base.{ℕ, ◌*◌, ◌/◌, ◌≤◌, ◌<◌, ◌^◌, ◌≡◌, List, length, take, All}
use phase.ByteArray.Memory.{IsFull, flat}
use phase.ByteArray.State.{ByteArray, node_ptr}

-- Sizes below this limit are exact as doubles, and no sum of two of them wraps.
abbrev pub limit : ℕ
limit = 2 ^ 53

pub record IsValid (b : ByteArray) : Type 0 where
  pub base_pos : 0 < b.base_size
  pub has_root : 0 < length b.nodes
  pub full : All (IsFull b.base_size) b.nodes
  pub capacity_eq : b.capacity ≡ length b.nodes * b.base_size
  pub position_le : b.position ≤ b.size
  pub size_le : b.size ≤ b.capacity
  pub small : b.capacity < limit
  pub cur_eq : b.cur ≡ node_ptr (length b.nodes) (b.position / b.base_size)

-- The bytes that a reader can see: those below `m_size`.
unfoldable pub contents : ByteArray → List ℕ
contents b = take b.size (flat b.nodes)
