-- ===== src/ByteArray/Position.antt =====
-- setPosition and clear.
use phase.Base.{ℕ, suc, ◌-◌, some, List, [], ◌∷◌, length, take, ltb, ◌==◌, if◌then◌else◌}
use phase.ByteArray.State.{ByteArray, Result, ok, out_of_range, fault, ◌>>=◌, node_ptr}

-- The walk of setPosition from the root: the number of nodes passed. A null node is read by the test.
unfoldable pub walk : List (List ℕ) → ℕ → Result ℕ
walk [] v = fault
walk (node ∷ nodes) v =
    let rest = walk nodes (v - length node) in
    if ltb (length node) v
    then (rest >>= λ i. ok (suc i))
    else ok (if v == length node then 1 else 0)

unfoldable pub set_position : ByteArray → ℕ → Result ByteArray
unfolding walk node_ptr
set_position b v = if ltb b.capacity v then out_of_range else do
  i ← walk b.nodes v
  ok (record b {
    position = v;
    size = if ltb b.size v then v else b.size;
    cur = node_ptr (length b.nodes) i;
  })

unfoldable pub clear : ByteArray → ByteArray
clear b = record b {
  position = 0;
  size = 0;
  capacity = b.base_size;
  nodes = take 1 b.nodes;
  cur = some 0;
}
