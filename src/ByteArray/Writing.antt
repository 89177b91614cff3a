-- ===== src/ByteArray/Writing.antt =====
-- write of a valid array does what `put` does to the tape.
use phase.Base.{
  All-concat, ℕ, zero, suc, ◌+◌, ◌/◌, ◌≤◌, ◌<◌, max, ◌≡◌, refl, ap, sym, ◌∙◌, List, [], ◌∷◌, ◌++◌,
  arith, length, take, drop, ltb, if◌then◌else◌, add64, length-append, length-drop,
  take-append_left, length-take,
}
use phase.ByteArray.Memory.{flat, overwrite, splice, overwrite-append_right, take-overwrite}
use phase.ByteArray.State.{ByteArray, ok, node_ptr, write_at_cur, write, add_capacity}
use phase.ByteArray.Valid.{IsValid, limit, contents}
use phase.ByteArray.Grow.{Grown, add_capacity-Grown, fresh_nodes}
use phase.ByteArray.Access.{Wrote, write_nodes-Wrote}
use phase.ByteArray.Flat.{flat-append, length-flat, All-take, All-drop, flat-take-drop, move_node}
use phase.ByteArray.Tape.{put, view}
use phase.ByteArray.Here.{here, offset, here_inside, cur-here, before_offset, behind}

module _ (b : ByteArray) (v : IsValid b) (inside : b.position < b.capacity) (buf : List ℕ)
    (fits : b.position + length buf ≤ b.capacity) where
  wrote : Wrote b.base_size v.base_pos (drop (here b v inside) b.nodes) (offset b v inside) buf
  wrote =
      write_nodes-Wrote b.base_size v.base_pos _ _ buf
        (All-drop b.base_size (here b v inside) b.nodes v.full) (grind arith)
        (behind b v inside (length buf) fits)

  abbrev written : ByteArray
  written = record b {
    nodes = take (here b v inside) b.nodes ++ wrote.after;
    cur = node_ptr (length b.nodes) ((b.position + length buf) / b.base_size);
    position = b.position + length buf;
    size = max b.size (b.position + length buf);
  }

  count_kept : length (take (here b v inside) b.nodes ++ wrote.after) ≡ length b.nodes
  count_kept = omega (
    arith,
    length-append (take (here b v inside) b.nodes) wrote.after,
    wrote.count_eq,
    length-take (here b v inside) b.nodes,
    length-drop (here b v inside) b.nodes,
    here_inside b v inside,
  )

  flat_written :
      flat (take (here b v inside) b.nodes ++ wrote.after) ≡ overwrite b.position buf (flat b.nodes)
  flat_written =
      rw (flat-append (take (here b v inside) b.nodes) wrote.after, wrote.flat_eq)
        (sym (
            overwrite-append_right (flat (take (here b v inside) b.nodes)) (offset b v inside) buf
              _)
          ∙ rw (before_offset b v inside, flat-take-drop b.base_size (here b v inside) b.nodes)
              refl)

  position_written : add64 b.position (length buf) ≡ b.position + length buf
  position_written = omega (arith, fits, v.small)

  size_written :
      (if ltb b.size (add64 b.position (length buf)) then add64 b.position (length buf) else b.size)
      ≡ max b.size (b.position + length buf)
  size_written = rw position_written (ground arith)

  node_written : here b v inside + wrote.moved ≡ (b.position + length buf) / b.base_size
  node_written = rw wrote.moved_eq (move_node b.base_size b.position (length buf) v.base_pos)

  write_at_cur-written : write_at_cur b buf ≡ ok written
  unfolding write_at_cur
  write_at_cur-written =
      rw (cur-here b v inside, wrote.runs, count_kept)
        λ i. ok (record written {
          position = position_written i;
          size = size_written i;
          cur = node_ptr (length b.nodes) (node_written i);
        })

  written-IsValid : IsValid written
  written-IsValid = record {
    base_pos = v.base_pos;
    has_root = omega (arith, count_kept, v.has_root);
    full =
        All-concat _ (take (here b v inside) b.nodes) wrote.after
          (All-take b.base_size (here b v inside) b.nodes v.full) wrote.full;
    capacity_eq = rw count_kept v.capacity_eq;
    position_le = omega arith;
    size_le = omega (arith, v.size_le);
    small = v.small;
    cur_eq = rw count_kept;
  }

  contents-written : contents written ≡ splice b.position buf (contents b)
  unfolding contents
  contents-written = rw flat_written (
      take-overwrite b.position buf (flat b.nodes) b.size _ v.position_le
        (omega (arith, v.size_le, v.capacity_eq, length-flat b.base_size b.nodes v.full))
        (omega (arith, fits, v.capacity_eq, length-flat b.base_size b.nodes v.full)) refl)

  view-written :
      view written
      ≡ record { bytes = splice b.position buf (contents b); position = b.position + length buf }
  unfolding view
  view-written i = record { bytes = contents-written i; position = b.position + length buf }

splice_none : (p : ℕ) (l : List ℕ) → splice p [] l ≡ l
splice_none zero l = refl
splice_none (suc p) [] = refl
splice_none (suc p) (y ∷ l) = ap (◌∷◌ y) (splice_none p l)

-- A write that succeeds and does to the byte sequence what the tape's `put` does.
pub record Writes (b : ByteArray) (buf : List ℕ) (c : ByteArray) : Type 0 where
  pub returns : write b buf ≡ ok c
  pub valid : IsValid c
  pub view_eq : view c ≡ put (view b) buf
  pub endian_eq : c.endian ≡ b.endian
  pub base_eq : c.base_size ≡ b.base_size

contents-Grown : (n : ℕ) (b c : ByteArray) → IsValid b → Grown n b c → contents c ≡ contents b
unfolding contents
contents-Grown n b c v g =
    rw (g.size_eq, g.nodes_eq, flat-append b.nodes (fresh_nodes b.base_size g.count))
      (take-append_left b.size (flat b.nodes) _
        (omega (arith, v.size_le, v.capacity_eq, length-flat b.base_size b.nodes v.full)))

-- Writing any bytes to a valid array whose sizes stay below the limit succeeds, leaves a valid
-- array, and does to its tape what `put` does.
pub write-Writes :
    (b : ByteArray) (buf : List ℕ)
    → IsValid b
    → b.position + length buf + b.base_size < limit
    → (c : ByteArray) × Writes b buf c
unfolding write view put
write-Writes b [] v fits = (
  b,
  record {
    returns = refl;
    valid = v;
    view_eq = λ i. record {
      bytes = sym (splice_none b.position (contents b)) i;
      position = (let e : b.position ≡ b.position + 0 = omega arith in e) i;
    };
    endian_eq = refl;
    base_eq = refl;
  },
)
write-Writes b (x ∷ buf) v fits = (
  written c g.valid inside (x ∷ buf) room,
  record {
    returns = write_at_cur-written c g.valid inside (x ∷ buf) room;
    valid = written-IsValid c g.valid inside (x ∷ buf) room;
    view_eq = view-written c g.valid inside (x ∷ buf) room ∙ λ i. record {
      bytes = splice (g.position_eq i) (x ∷ buf) (contents-Grown (suc (length buf)) b c v g i);
      position = g.position_eq i + suc (length buf);
    };
    endian_eq = g.endian_eq;
    base_eq = g.base_eq;
  },
)
  where
    c : ByteArray
    c = add_capacity (suc (length buf)) b

    g : Grown (suc (length buf)) b c
    g = add_capacity-Grown (suc (length buf)) b v fits

    inside : c.position < c.capacity
    inside = omega (arith, g.position_eq, g.room)

    room : c.position + length (x ∷ buf) ≤ c.capacity
    room = omega (arith, g.position_eq, g.room)
