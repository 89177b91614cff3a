-- ===== src/ByteArray/State.antt =====
-- The state of a ByteArray, its failures, and the loops of write, read and addCapacity.
-- A Node is the list of its bytes, `m_root` is the whole list, and a pointer into it is an index.
use phase.Base.{
  ℕ, zero, suc, ◌+◌, ◌-◌, ◌/◌, ◌%◌, Option, none, some, List, [], ◌∷◌, ◌++◌, length, take, drop,
  replicate, ltb, leb, ◌==◌, if◌then◌else◌, add64, sub64,
}
use phase.ByteArray.Memory.{overwrite}

pub data Endian : Type 0 where
  little big : Endian

-- `out_of_range` is the exception that the class throws; `fault` is undefined behaviour: a use of a
-- null `m_cur`, or a write past a local array.
pub data Result {ℓ} (A : Type ℓ) : Type ℓ where
  ok : A → Result A
  out_of_range fault : Result A

infixl 5 ◌>>=◌
abbrev pub ◌>>=◌ {ℓ κ} : {A : Type ℓ} {B : Type κ} → Result A → (A → Result B) → Result B
ok a >>= f = f a
out_of_range >>= f = out_of_range
fault >>= f = fault

pub record ByteArray : Type 0 where
  pub base_size : ℕ
  pub position : ℕ
  pub capacity : ℕ
  pub size : ℕ
  pub endian : Endian
  pub nodes : List (List ℕ)
  pub cur : Option ℕ

-- A fresh node. Its bytes are indeterminate in C++; here they are zeros.
unfoldable pub new_node : ℕ → List ℕ
new_node n = replicate n 0

-- The constructor.
unfoldable pub make : ℕ → ByteArray
unfolding new_node
make base = record {
  base_size = base;
  position = 0;
  capacity = base;
  size = 0;
  endian = big;
  nodes = new_node base ∷ [];
  cur = some 0;
}

-- The pointer `i` steps from the root, which is null behind the last node.
unfoldable pub node_ptr : ℕ → ℕ → Option ℕ
node_ptr count i = if ltb i count then some i else none

unfoldable pub deref : Option ℕ → Result ℕ
deref none = fault
deref (some i) = ok i

unfoldable pub get_read_size : ByteArray → ℕ
get_read_size b = sub64 b.size b.position

unfoldable pub get_capacity : ByteArray → ℕ
get_capacity b = sub64 b.capacity b.position

-- `ceil(1.0 * size / m_baseSize)`; the quotient of doubles is exact enough for sizes below 2^53.
unfoldable pub ceil_div : ℕ → ℕ → ℕ
ceil_div n d = (n + d - 1) / d

-- The loop of addCapacity that appends nodes.
unfoldable pub append_nodes : ℕ → ByteArray → ByteArray
unfolding new_node
append_nodes zero b = b
append_nodes (suc count) b = append_nodes count (record b {
  nodes = b.nodes ++ new_node b.base_size ∷ [];
  capacity = add64 b.capacity b.base_size;
})

-- A null `first` (no node appended) is `node_ptr` at the old number of nodes.
unfoldable pub add_capacity : ℕ → ByteArray → ByteArray
unfolding append_nodes get_capacity ceil_div node_ptr
add_capacity size b =
    if size == 0
    then b
    else if leb size (get_capacity b)
    then b
    else let grown = append_nodes (ceil_div (size - get_capacity b) b.base_size) b in
      if get_capacity b == 0
      then record grown { cur = node_ptr (length grown.nodes) (length b.nodes) }
      else grown

-- The loop of write, on the nodes from `m_cur` on: the nodes after it, and by how many `m_cur` moved.
-- `npos` stays within the node, so `m_cur->size - npos` does not wrap.
unfoldable pub write_nodes : List (List ℕ) → ℕ → List ℕ → Result (List (List ℕ) × ℕ)
write_nodes nodes npos [] = ok (nodes, 0)
write_nodes [] npos (x ∷ buf) = fault
write_nodes (node ∷ nodes) npos (x ∷ buf) =
    let ncap = length node - npos in
    let size = length (x ∷ buf) in
    let rest = write_nodes nodes 0 (drop ncap (x ∷ buf)) in
    if leb size ncap
    then ok (overwrite npos (x ∷ buf) node ∷ nodes, if length node == npos + size then 1 else 0)
    else rest >>= λ r. ok (overwrite npos (take ncap (x ∷ buf)) node ∷ r.0, suc r.1)

unfoldable pub write_at_cur : ByteArray → List ℕ → Result ByteArray
unfolding write_nodes deref node_ptr
write_at_cur b buf = do
  i ← deref b.cur
  (after, moved) ← write_nodes (drop i b.nodes) (b.position % b.base_size) buf
  let position = add64 b.position (length buf)
  let nodes = take i b.nodes ++ after
  ok (record b {
    nodes = nodes;
    cur = node_ptr (length nodes) (i + moved);
    position = position;
    size = if ltb b.size position then position else b.size;
  })

unfoldable pub write : ByteArray → List ℕ → Result ByteArray
unfolding write_at_cur add_capacity
write b [] = ok b
write b (x ∷ buf) = write_at_cur (add_capacity (length (x ∷ buf)) b) (x ∷ buf)

-- The loop of read: the bytes copied out, and by how many nodes the pointer moved.
unfoldable pub read_nodes : List (List ℕ) → ℕ → ℕ → Result (List ℕ × ℕ)
read_nodes nodes npos zero = ok ([], 0)
read_nodes [] npos (suc n) = fault
read_nodes (node ∷ nodes) npos (suc n) =
    let ncap = length node - npos in
    let rest = read_nodes nodes 0 (suc n - ncap) in
    if leb (suc n) ncap
    then ok (take (suc n) (drop npos node), if length node == npos + suc n then 1 else 0)
    else rest >>= λ r. ok (take ncap (drop npos node) ++ r.0, suc r.1)

-- `m_cur->size` is read before the loop, also when no byte is wanted.
unfoldable pub read : ByteArray → ℕ → Result (List ℕ × ByteArray)
unfolding read_nodes deref node_ptr get_read_size
read b size = if ltb (get_read_size b) size then out_of_range else do
  i ← deref b.cur
  (bytes, moved) ← read_nodes (drop i b.nodes) (b.position % b.base_size) size
  ok (
    bytes,
    record b { position = add64 b.position size; cur = node_ptr (length b.nodes) (i + moved) },
  )

-- The overload that reads at a position: it starts from `m_cur`, whatever the position is.
unfoldable pub read_at : ByteArray → ℕ → ℕ → Result (List ℕ)
unfolding read_nodes deref
read_at b size position = if ltb (sub64 b.size position) size then out_of_range else do
  i ← deref b.cur
  (bytes, moved) ← read_nodes (drop i b.nodes) (position % b.base_size) size
  ok bytes
