-- ===== src/ByteArray/Access.antt =====
-- The loops of write and read on full nodes, seen on the concatenation of the nodes.
use phase.Base.{
  ℕ, zero, suc, if◌then◌else◌, ◌==◌, leb, ◌+◌, ◌-◌, ◌/◌, ◌≤◌, ◌<◌, ◌≡◌, refl, ap, sym, ◌∙◌, inl,
  inr, false, List, [], ◌∷◌, ◌++◌, arith, length, take, drop, All, Bool-cases, length-append,
  length-drop, take_all, drop_all,
}
use phase.ByteArray.Memory.{
  IsFull, flat, overwrite, length-overwrite, overwrite-append, overwrite-take, take-drop-append,
  take-drop-append_left,
}
use phase.ByteArray.State.{ok, write_nodes, read_nodes}

overwrite_none : (p : ℕ) (l : List ℕ) → overwrite p [] l ≡ l
overwrite_none p [] = refl
overwrite_none zero (y ∷ l) = refl
overwrite_none (suc p) (y ∷ l) = ap (◌∷◌ y) (overwrite_none p l)

module _ (base : ℕ) (base_pos : 0 < base) where
  -- What the loop of write leaves, started at offset `npos` of the first node.
  pub record Wrote (nodes : List (List ℕ)) (npos : ℕ) (buf : List ℕ) : Type 0 where
    pub after : List (List ℕ)
    pub moved : ℕ
    pub runs : write_nodes nodes npos buf ≡ ok (after, moved)
    pub flat_eq : flat after ≡ overwrite npos buf (flat nodes)
    pub full : All (IsFull base) after
    pub count_eq : length after ≡ length nodes
    pub moved_eq : moved ≡ (npos + length buf) / base

  one_node : (m : ℕ) → m ≤ base → (if base == m then 1 else 0) ≡ m / base
  one_node m h = grind arith

  next_node : (n : ℕ) → suc (n / base) ≡ (base + n) / base
  next_node n = grind arith

  within :
      (node : List ℕ) (nodes : List (List ℕ)) (npos : ℕ) (buf : List ℕ)
      → npos ≤ length node
      → length buf ≤ length node - npos
      → overwrite npos buf (node ++ flat nodes) ≡ overwrite npos buf node ++ flat nodes
  within node nodes npos buf h k =
      overwrite-append npos (length node - npos) buf node (flat nodes) (omega arith)
      ∙ ap (◌++◌ (overwrite npos buf node))
          (rw (drop_all (length node - npos) buf k) (overwrite_none 0 (flat nodes)))

  two_nodes :
      (node : List ℕ) (nodes : List (List ℕ)) (npos : ℕ) (buf : List ℕ)
      → IsFull base node
      → npos < base
      → leb (length buf) (length node - npos) ≡ false
      → Wrote nodes 0 (drop (length node - npos) buf)
      → Wrote (node ∷ nodes) npos buf
  unfolding write_nodes
  two_nodes node nodes npos [] is_full h e w = absurd (ground arith)
  two_nodes node nodes npos (x ∷ buf) is_full h e w = record {
    after = overwrite npos (take ncap (x ∷ buf)) node ∷ w.after;
    moved = suc w.moved;
    runs = rw (e, w.runs);
    flat_eq =
        rw (overwrite-take npos ncap (x ∷ buf) node room, w.flat_eq)
          (sym (overwrite-append npos ncap (x ∷ buf) node (flat nodes) room));
    full = (length-overwrite npos _ node ∙ is_full, w.full);
    count_eq = ap suc w.count_eq;
    moved_eq =
        rw w.moved_eq
          (next_node _ ∙ ap (λ k. k / base) (ground (arith, length-drop ncap (x ∷ buf))));
  }
    where
      ncap : ℕ
      ncap = length node - npos

      room : length node ≡ npos + ncap
      room = omega arith

  pub write_nodes-Wrote :
      (nodes : List (List ℕ)) (npos : ℕ) (buf : List ℕ)
      → All (IsFull base) nodes
      → npos < base
      → npos + length buf ≤ length (flat nodes)
      → Wrote nodes npos buf
  unfolding write_nodes
  write_nodes-Wrote nodes npos [] full h fits = record {
    after = nodes;
    moved = 0;
    runs = refl;
    flat_eq = sym (overwrite_none npos (flat nodes));
    full = full;
    count_eq = refl;
    moved_eq = grind arith;
  }
  write_nodes-Wrote [] npos (x ∷ buf) full h fits = absurd (omega arith)
  write_nodes-Wrote (node ∷ nodes) npos (x ∷ buf) (is_full, full) h fits =
      elim (Bool-cases (leb (suc (length buf)) (length node - npos))) [
        | inl e ↦ record {
          after = overwrite npos (x ∷ buf) node ∷ nodes;
          moved = if length node == npos + suc (length buf) then 1 else 0;
          runs = rw e;
          flat_eq = sym (within node nodes npos (x ∷ buf) (omega arith) (ground arith));
          full = (length-overwrite npos (x ∷ buf) node ∙ is_full, full);
          count_eq = refl;
          moved_eq = rw is_full (one_node _ (ground arith));
        }
        | inr e ↦ two_nodes node nodes npos (x ∷ buf) is_full h e (
            write_nodes-Wrote nodes 0 (drop (length node - npos) (x ∷ buf)) full base_pos (
              omega (
                arith,
                fits,
                length-append node (flat nodes),
                length-drop (length node - npos) (x ∷ buf),
              )))
      ]

  -- What the loop of read gives, started at offset `npos` of the first node.
  pub record Read (nodes : List (List ℕ)) (npos n : ℕ) : Type 0 where
    pub moved : ℕ
    pub runs : read_nodes nodes npos n ≡ ok (take n (drop npos (flat nodes)), moved)
    pub moved_eq : moved ≡ (npos + n) / base

  read_two_nodes :
      (node : List ℕ) (nodes : List (List ℕ)) (npos n : ℕ)
      → IsFull base node
      → npos < base
      → leb (suc n) (length node - npos) ≡ false
      → Read nodes 0 (suc n - (length node - npos))
      → Read (node ∷ nodes) npos (suc n)
  unfolding read_nodes
  read_two_nodes node nodes npos n is_full h e r = record {
    moved = suc r.moved;
    runs =
        rw (e, r.runs)
          (ap (λ t. ok (t, suc r.moved))
            (ap (λ t. t ++ take (suc n - ncap) (flat nodes))
                (take_all ncap (drop npos node) (omega (arith, length-drop npos node)))
              ∙ sym
                  (take-drop-append (suc n) npos node (flat nodes) (omega arith) (ground arith))));
    moved_eq = rw r.moved_eq (next_node _ ∙ ap (λ k. k / base) (ground arith));
  }
    where
      ncap : ℕ
      ncap = length node - npos

  pub read_nodes-Read :
      (nodes : List (List ℕ)) (npos n : ℕ)
      → All (IsFull base) nodes
      → npos < base
      → npos + n ≤ length (flat nodes)
      → Read nodes npos n
  unfolding read_nodes
  read_nodes-Read nodes npos zero full h fits = record {
    moved = 0;
    runs = refl;
    moved_eq = grind arith;
  }
  read_nodes-Read [] npos (suc n) full h fits = absurd (omega arith)
  read_nodes-Read (node ∷ nodes) npos (suc n) (is_full, full) h fits =
      elim (Bool-cases (leb (suc n) (length node - npos))) [
        | inl e ↦ record {
          moved = if length node == npos + suc n then 1 else 0;
          runs = rw (e, take-drop-append_left (suc n) npos node (flat nodes) (ground arith));
          moved_eq = rw is_full (one_node _ (ground arith));
        }
        | inr e ↦ read_two_nodes node nodes npos n is_full h e (
            read_nodes-Read nodes 0 (suc n - (length node - npos)) full base_pos
              (omega (arith, fits, length-append node (flat nodes))))
      ]
