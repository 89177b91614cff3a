-- ===== src/ByteArray/Buffers.antt =====
-- getReadBuffers and getWriteBuffers: the pieces of the nodes that a vector of iovec names.
use phase.Base.{
  ℕ, zero, suc, ◌-◌, ◌/◌, ◌%◌, List, [], ◌∷◌, length, drop, ltb, leb, ◌==◌, if◌then◌else◌,
}
use phase.ByteArray.State.{
  ByteArray, Result, ok, fault, ◌>>=◌, deref, get_read_size, add_capacity, read_at,
}

-- One iovec: the node that `iov_base` points into, the offset there, and `iov_len`.
pub record IoVec : Type 0 where
  pub node : ℕ
  pub offset : ℕ
  pub len : ℕ

-- The loop that fills the vector, on the nodes from `cur` (the node numbered `i`) on.
unfoldable pub io_vecs : List (List ℕ) → ℕ → ℕ → ℕ → Result (List IoVec)
io_vecs nodes i npos zero = ok []
io_vecs [] i npos (suc len) = fault
io_vecs (node ∷ nodes) i npos (suc len) =
    let ncap = length node - npos in
    let rest = io_vecs nodes (suc i) 0 (suc len - ncap) in
    if leb (suc len) ncap
    then ok (record { node = i; offset = npos; len = suc len } ∷ [])
    else (rest >>= λ r. ok (record { node = i; offset = npos; len = ncap } ∷ r))

unfoldable pub clip : ByteArray → ℕ → ℕ
unfolding get_read_size
clip b len = if ltb (get_read_size b) len then get_read_size b else len

-- The vector appended to `buffers`, and the number of bytes promised.
unfoldable pub get_read_buffers : ByteArray → ℕ → Result (List IoVec × ℕ)
unfolding io_vecs clip deref
get_read_buffers b len = if clip b len == 0 then ok ([], 0) else do
  i ← deref b.cur
  vecs ← io_vecs (drop i b.nodes) i (b.position % b.base_size) (clip b len)
  ok (vecs, clip b len)

-- The overload with a position counts the nodes from the root; the length is still clipped by what
-- is left behind `m_position`.
unfoldable pub get_read_buffers_at : ByteArray → ℕ → ℕ → Result (List IoVec × ℕ)
unfolding io_vecs clip
get_read_buffers_at b len position = if clip b len == 0 then ok ([], 0) else do
  vecs ←
      io_vecs (drop (position / b.base_size) b.nodes) (position / b.base_size)
        (position % b.base_size) (clip b len)
  ok (vecs, clip b len)

unfoldable pub get_write_buffers : ByteArray → ℕ → Result (List IoVec × ℕ × ByteArray)
unfolding io_vecs deref add_capacity
get_write_buffers b len =
    let grown = add_capacity len b in
    if len == 0 then ok ([], 0, b) else do
      i ← deref grown.cur
      vecs ← io_vecs (drop i grown.nodes) i (grown.position % grown.base_size) len
      ok (vecs, len, grown)

unfoldable pub to_string : ByteArray → Result (List ℕ)
unfolding read_at get_read_size
to_string b = if get_read_size b == 0 then ok [] else read_at b (get_read_size b) b.position
