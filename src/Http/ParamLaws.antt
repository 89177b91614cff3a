-- ===== src/Http/ParamLaws.antt =====
-- PARSE_PARAM of src/http/http.cc: its loop ends, and it reads what was printed.
use phase.Base.{
  ℕ, zero, suc, ◌+◌, ◌-◌, ◌<◌, ◌≡◌, refl, ◌∙◌, false, some, List, [], ◌∷◌, ◌++◌, arith, length,
  drop, ◌==◌, All, inl, inr, Option-cases, length-append,
}
use phase.Http.FieldMap.{MapType, insert, IsOrdered, find, find-insert}
use phase.Http.Ordered.{insert-IsOrdered}
use phase.Http.Params.{
  parse_loop, parse_param, find_from, find_from-bounds, parse_loop_round, parse_loop_last,
  parse_loop_end, add_pair, Free, substr, drop_past, drop_one,
}

-- What is found in the first map is found in the second.
abbrev pub Keeps : MapType → MapType → Type 0
Keeps m n = (key val : List ℕ) → find key m ≡ some val → find key n ≡ some val

insert-Keeps : (k v : List ℕ) (m : MapType) → Keeps m (insert k v m)
insert-Keeps k v m key val e = ground (arith, e, find-insert key k v m)

-- With a round for every byte that is left and one more, the loop ends.
parse_loop-total :
    (trim : List ℕ → List ℕ) (flag fuel : ℕ) (str : List ℕ) (last : ℕ) (m : MapType)
    → length str - last < fuel
    → IsOrdered m
    → (n : MapType) × (parse_loop trim flag fuel str last m ≡ some n) × IsOrdered n × Keeps m n
unfolding parse_loop
parse_loop-total trim flag zero str last m h o = absurd (omega arith)
parse_loop-total trim flag (suc fuel) str last m h o = elim (Option-cases (find_from str 61 last)) [
  | inl e ↦ (m, rw (e, parse_loop) refl, o, λ key val h. h)
  | inr (key, e) ↦ elim (Option-cases (find_from str flag key)) [
    | inl f ↦ (
      add_pair trim (substr str last (key - last)) (drop (key + 1) str) m,
      rw (e, f, parse_loop) refl,
      insert-IsOrdered _ _ m o,
      insert-Keeps _ _ m,
    )
    | inr (pos, f) ↦
        let (n, result, ordered, keeps) =
          parse_loop-total trim flag fuel str (pos + 1)
            (add_pair trim (substr str last (key - last)) (substr str (key + 1) (pos - key - 1)) m)
            (omega
              (arith, h, find_from-bounds str 61 last key e, find_from-bounds str flag key pos f))
            (insert-IsOrdered _ _ m o) in
        (
          n,
          rw (e, f, parse_loop) result,
          ordered,
          λ name val h. keeps name val (insert-Keeps _ _ m name val h),
        )
  ]
]

-- The loop always ends, keeps the map in order, and changes no entry of it.
pub parse_param-total :
    (trim : List ℕ → List ℕ) (flag : ℕ) (str : List ℕ) (m : MapType)
    → IsOrdered m
    → (n : MapType) × (parse_param trim flag str m ≡ some n) × IsOrdered n × Keeps m n
unfolding parse_param
parse_param-total trim flag str m o =
    parse_loop-total trim flag (suc (length str)) str 0 m (omega arith) o

-- Pairs `key=value` with a separator between two of them.
unfoldable pub joined : ℕ → List (List ℕ × List ℕ) → List ℕ
joined flag [] = []
joined flag ((k, v) ∷ []) = k ++ 61 ∷ v
joined flag ((k, v) ∷ (e ∷ pairs)) = k ++ (61 ∷ v ++ flag ∷ joined flag (e ∷ pairs))

-- Keys without `=`, and values without the separator, which keys may hold.
abbrev pub Printable : ℕ → List (List ℕ × List ℕ) → Type 0
Printable flag pairs = All (λ e. Free 61 e.0 × Free flag e.1) pairs

-- The pairs put into the map one after the other.
unfoldable pub add_pairs : (List ℕ → List ℕ) → List (List ℕ × List ℕ) → MapType → MapType
add_pairs trim [] m = m
add_pairs trim ((k, v) ∷ pairs) m = add_pairs trim pairs (add_pair trim k v m)

parse_loop-joined :
    (trim : List ℕ → List ℕ) (flag fuel : ℕ) (str : List ℕ) (last : ℕ) (m : MapType)
    → (pairs : List (List ℕ × List ℕ)) → (61 == flag) ≡ false
    → drop last str ≡ joined flag pairs
    → length (joined flag pairs) < fuel
    → Printable flag pairs
    → parse_loop trim flag fuel str last m ≡ some (add_pairs trim pairs m)
unfolding joined add_pairs
parse_loop-joined trim flag zero str last m pairs ne e h p = absurd (omega arith)
parse_loop-joined trim flag (suc fuel) str last m [] ne e h p =
    parse_loop_end trim flag fuel str last m [] e tt
parse_loop-joined trim flag (suc fuel) str last m ((k, v) ∷ []) ne e h ((hk, hv), _) =
    parse_loop_last trim flag fuel str last m k v e hk (ne, hv)
parse_loop-joined trim flag (suc fuel) str last m ((k, v) ∷ (x ∷ pairs)) ne e h ((hk, hv), p) =
    parse_loop_round trim flag fuel str last m k v (joined flag (x ∷ pairs)) e hk (ne, hv)
    ∙ parse_loop-joined trim flag fuel str (last + length k + suc (length v) + 1)
        (add_pair trim k v m) (x ∷ pairs) ne
        (drop_one str (last + length k + suc (length v)) flag (joined flag (x ∷ pairs)) (
          drop_past str (last + length k) (61 ∷ v) (flag ∷ joined flag (x ∷ pairs))
            (drop_past str last k (61 ∷ v ++ flag ∷ joined flag (x ∷ pairs)) e)))
        (omega (
          arith,
          h,
          length-append k (61 ∷ v ++ flag ∷ joined flag (x ∷ pairs)),
          length-append v (flag ∷ joined flag (x ∷ pairs)),
        ))
        p

-- What was printed is read back: each pair is added in turn, so that of two pairs with the same key
-- the first counts.
pub parse_param-joined :
    (trim : List ℕ → List ℕ) (flag : ℕ) (pairs : List (List ℕ × List ℕ)) (m : MapType)
    → (61 == flag) ≡ false
    → Printable flag pairs
    → parse_param trim flag (joined flag pairs) m ≡ some (add_pairs trim pairs m)
unfolding parse_param
parse_param-joined trim flag pairs m ne p =
    parse_loop-joined trim flag (suc (length (joined flag pairs))) (joined flag pairs) 0 m pairs ne
      refl (omega arith) p
