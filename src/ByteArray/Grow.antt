-- ===== src/ByteArray/Grow.antt =====
-- addCapacity.
use phase.Base.{
  All-concat, ℕ, zero, suc, if◌then◌else◌, ◌==◌, leb, ◌+◌, ◌-◌, ◌*◌, ◌/◌, ◌≤◌, ◌<◌, ◌≡◌, ◌≢◌, refl,
  ap, sym, ◌∙◌, inl, inr, Option, List, [], ◌∷◌, ◌++◌, arith, length, replicate, All, Bool-cases,
  add64, length-append, length-replicate, append-nil, append_assoc,
}
use phase.ByteArray.Memory.{IsFull}
use phase.ByteArray.State.{
  ByteArray, new_node, append_nodes, ceil_div, add_capacity, get_capacity, node_ptr,
}
use phase.ByteArray.Valid.{IsValid, limit}

-- The list that `count` rounds append.
abbrev pub fresh_nodes : ℕ → ℕ → List (List ℕ)
fresh_nodes base count = replicate count (new_node base)

append_nodes_fresh :
    (count : ℕ) (b : ByteArray)
    → b.capacity + count * b.base_size < limit
    → append_nodes count b ≡ record b {
      nodes = b.nodes ++ fresh_nodes b.base_size count;
      capacity = b.capacity + count * b.base_size;
    }
unfolding append_nodes
append_nodes_fresh zero b h = λ i. record b {
  nodes = sym (append-nil b.nodes) i;
  capacity = (let e : b.capacity ≡ b.capacity + 0 * b.base_size = omega arith in e) i;
}
append_nodes_fresh (suc count) b h = grown ∙ append_nodes_fresh count one_more (grind arith) ∙ λ i.
    record b {
      nodes = append_assoc b.nodes (new_node b.base_size ∷ []) (fresh_nodes b.base_size count) i;
      capacity = total i;
    }
  where
    one_more : ByteArray
    one_more = record b {
      nodes = b.nodes ++ new_node b.base_size ∷ [];
      capacity = b.capacity + b.base_size;
    }

    no_wrap : add64 b.capacity b.base_size ≡ b.capacity + b.base_size
    no_wrap = grind arith

    grown : append_nodes (suc count) b ≡ append_nodes count one_more
    grown = ap (λ c. append_nodes count (record one_more { capacity = c })) no_wrap

    total : b.capacity + b.base_size + count * b.base_size ≡ b.capacity + suc count * b.base_size
    total = grind arith

ceil_div_bounds :
    (n d : ℕ)
    → 0 < d
    → 0 < n
    → (n ≤ ceil_div n d * d) × (ceil_div n d * d < n + d) × (0 < ceil_div n d)
unfolding ceil_div
ceil_div_bounds n d h k = grind arith

pub length-new_node : (n : ℕ) → length (new_node n) ≡ n
unfolding new_node
length-new_node n = length-replicate n 0

All-fresh : (base count : ℕ) → All (IsFull base) (fresh_nodes base count)
All-fresh base zero = tt
All-fresh base (suc count) = (length-new_node base, All-fresh base count)

pub div-lt_count : (p m base : ℕ) → 0 < base → p < m * base → p / base < m
div-lt_count p m base h k = grind arith

pub count-mul-div : (p m base : ℕ) → 0 < base → p ≡ m * base → p / base ≡ m
count-mul-div p m base h k = grind arith

node_ptr-more : (m k i : ℕ) → i < m → node_ptr m i ≡ node_ptr (m + k) i
unfolding node_ptr
node_ptr-more m k i h = ground arith

-- `c` is `b` with more nodes, and room for `n` bytes behind the position.
pub record Grown (n : ℕ) (b c : ByteArray) : Type 0 where
  pub count : ℕ
  pub nodes_eq : c.nodes ≡ b.nodes ++ fresh_nodes b.base_size count
  pub base_eq : c.base_size ≡ b.base_size
  pub position_eq : c.position ≡ b.position
  pub size_eq : c.size ≡ b.size
  pub endian_eq : c.endian ≡ b.endian
  pub valid : IsValid c
  pub room : b.position + n ≤ c.capacity

module _ (n : ℕ) (b : ByteArray) (v : IsValid b) (fits : b.position + n + b.base_size < limit) where
  abbrev grown_by : ℕ → Option ℕ → ByteArray
  grown_by count cur = record b {
    nodes = b.nodes ++ fresh_nodes b.base_size count;
    capacity = b.capacity + count * b.base_size;
    cur = cur;
  }

  get_capacity_lem : get_capacity b ≡ b.capacity - b.position
  unfolding get_capacity
  get_capacity_lem = omega (arith, v.position_le, v.size_le, v.small)

  kept-Grown : n ≤ b.capacity - b.position → Grown n b b
  kept-Grown h = record {
    count = 0;
    nodes_eq = sym (append-nil b.nodes);
    base_eq = refl;
    position_eq = refl;
    size_eq = refl;
    endian_eq = refl;
    valid = v;
    room = omega (arith, v.position_le, v.size_le);
  }

  module _ (count : ℕ) (cur : Option ℕ) (enough : n ≤ b.capacity - b.position + count * b.base_size)
      (small : b.capacity + count * b.base_size < limit)
      (at : cur ≡ node_ptr (length b.nodes + count) (b.position / b.base_size)) where
    padded-Grown : Grown n b (grown_by count cur)
    padded-Grown = record {
      count = count;
      nodes_eq = refl;
      base_eq = refl;
      position_eq = refl;
      size_eq = refl;
      endian_eq = refl;
      valid = record {
        base_pos = v.base_pos;
        has_root = omega (arith, v.has_root, counted);
        full = All-concat _ b.nodes _ v.full (All-fresh b.base_size count);
        capacity_eq = rw (counted, v.capacity_eq) (grind arith);
        position_le = v.position_le;
        size_le = omega (arith, v.size_le);
        small = small;
        cur_eq = rw counted at;
      };
      room = omega (arith, v.position_le, v.size_le, enough);
    }
      where
        counted : length (b.nodes ++ fresh_nodes b.base_size count) ≡ length b.nodes + count
        counted = rw (length-append b.nodes _, length-replicate count _) refl

  module _ (lacking : b.capacity - b.position < n) where
    abbrev needed : ℕ
    needed = ceil_div (n - (b.capacity - b.position)) b.base_size

    needed_bounds :
        (n ≤ b.capacity - b.position + needed * b.base_size)
        × (b.capacity + needed * b.base_size < limit)
        × (0 < needed)
    needed_bounds = omega (
      arith,
      fits,
      v.position_le,
      v.size_le,
      ceil_div_bounds (n - (b.capacity - b.position)) b.base_size v.base_pos (omega arith),
    )

    at_end : b.capacity - b.position ≡ 0 → b.position / b.base_size ≡ length b.nodes
    at_end e =
        count-mul-div b.position (length b.nodes) b.base_size v.base_pos
          (omega (arith, v.position_le, v.size_le, v.capacity_eq))

    inside : b.capacity - b.position ≢ 0 → b.position / b.base_size < length b.nodes
    inside e =
        div-lt_count b.position (length b.nodes) b.base_size v.base_pos
          (omega (arith, v.position_le, v.size_le, v.capacity_eq))

    -- A null `m_cur` moves to the first new node, any other stays.
    grow-Grown : Grown n b (
        if b.capacity - b.position == 0
        then record (append_nodes needed b) {
          cur = node_ptr (length (append_nodes needed b).nodes) (length b.nodes);
        }
        else append_nodes needed b)
    grow-Grown =
        rw (append_nodes_fresh needed b needed_bounds.1)
          (elim (Bool-cases (b.capacity - b.position == 0)) [
            | inl e ↦ rw e (
                padded-Grown needed _ needed_bounds.0 needed_bounds.1 (
                  rw (length-append b.nodes _, length-replicate needed _)
                    (ap (node_ptr (length b.nodes + needed)) (sym (at_end (ground arith))))))
            | inr e ↦ rw e (
                padded-Grown needed b.cur needed_bounds.0 needed_bounds.1
                  (v.cur_eq ∙ node_ptr-more (length b.nodes) needed _ (inside (ground arith))))
          ])

  -- On a valid array whose sizes stay below the limit, addCapacity appends whole fresh nodes and nothing
  -- else, until `n` bytes fit behind the position.
  pub add_capacity-Grown : Grown n b (add_capacity n b)
  unfolding add_capacity
  add_capacity-Grown = elim (Bool-cases (n == 0)) [
    | inl e ↦ rw e (kept-Grown (ground arith))
    | inr e ↦ elim (Bool-cases (leb n (get_capacity b))) [
      | inl f ↦ rw (e, f) (kept-Grown (ground (arith, get_capacity_lem)))
      | inr f ↦ rw (e, f, get_capacity_lem) (grow-Grown (ground (arith, get_capacity_lem)))
    ]
  ]
