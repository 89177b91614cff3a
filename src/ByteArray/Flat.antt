-- ===== src/ByteArray/Flat.antt =====
-- The nodes before and after a position, as parts of the concatenation.
use phase.Base.{
  ℕ, zero, suc, ◌+◌, ◌*◌, ◌/◌, ◌%◌, ◌<◌, ◌≡◌, refl, ap, sym, ◌∙◌, List, [], ◌∷◌, ◌++◌, arith,
  length, take, drop, All, length-append, append_assoc, take-append-drop,
}
use phase.ByteArray.Memory.{IsFull, flat}
use native.Mathlib.Nat.{add-mul-div_right, div-add-mod'}

pub flat-append : (xs ys : List (List ℕ)) → flat (xs ++ ys) ≡ flat xs ++ flat ys
flat-append [] ys = refl
flat-append (x ∷ xs) ys = ap (◌++◌ x) (flat-append xs ys) ∙ sym (append_assoc x (flat xs) (flat ys))

module _ (base : ℕ) where
  pub length-flat :
      (nodes : List (List ℕ)) → All (IsFull base) nodes → length (flat nodes) ≡ length nodes * base
  length-flat [] full = omega arith
  length-flat (node ∷ nodes) (is_full, full) =
      omega (arith, length-append node (flat nodes), length-flat nodes full)

  pub All-take :
      (i : ℕ) (nodes : List (List ℕ)) → All (IsFull base) nodes → All (IsFull base) (take i nodes)
  All-take zero nodes full = tt
  All-take (suc i) [] full = tt
  All-take (suc i) (node ∷ nodes) (is_full, full) = (is_full, All-take i nodes full)

  pub All-drop :
      (i : ℕ) (nodes : List (List ℕ)) → All (IsFull base) nodes → All (IsFull base) (drop i nodes)
  All-drop zero nodes full = full
  All-drop (suc i) [] full = tt
  All-drop (suc i) (node ∷ nodes) (is_full, full) = All-drop i nodes full

  pub flat-take-drop :
      (i : ℕ) (nodes : List (List ℕ)) → flat (take i nodes) ++ flat (drop i nodes) ≡ flat nodes
  flat-take-drop i nodes =
      sym (flat-append (take i nodes) (drop i nodes)) ∙ ap flat (take-append-drop i nodes)

  -- The node of a position, and the position after a move of `n` bytes.
  pub move_node : (p n : ℕ) → 0 < base → p / base + (p % base + n) / base ≡ (p + n) / base
  move_node p n h =
      omega (arith, add-mul-div_right (p % base + n) (p / base) h, ap (λ (k : ℕ). k / base) whole)
    where
      whole : p % base + n + p / base * base ≡ p + n
      whole = omega (arith, div-add-mod' p base)
