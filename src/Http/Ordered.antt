-- ===== src/Http/Ordered.antt =====
-- The order of a map's entries is kept by every call.
use phase.Base.{
  ℕ, ◌≡◌, refl, ◌∙◌, true, false, none, List, [], ◌∷◌, arith, if◌then◌else◌, All, Bool-cases, inl,
  inr,
}
use phase.Http.Names.{
  case_insensitive_less, same_name, less_trans, less_asym, neither_lem, folded_less, folded,
}
use phase.Http.FieldMap.{
  MapType, find, assign, insert, erase, IsOrdered, trichotomy, same_name-less,
}

-- Every key of `m` is more than `k`.
abbrev Above : List ℕ → MapType → Type 0
Above k m = All (λ e. case_insensitive_less k e.0 ≡ true) m

Above_lower :
    (j k : List ℕ) (m : MapType) → case_insensitive_less j k ≡ true → Above k m → Above j m
Above_lower j k [] h a = tt
Above_lower j k (e ∷ m) h (a, rest) = (less_trans j k e.0 h a, Above_lower j k m h rest)

Above-assign :
    (j k v : List ℕ) (m : MapType)
    → case_insensitive_less j k ≡ true
    → Above j m
    → Above j (assign k v m)
unfolding assign
Above-assign j k v [] h a = (h, tt)
Above-assign j k v ((x, w) ∷ m) h (a, rest) = ground (arith, Above-assign j k v m h rest)

Above-insert :
    (j k v : List ℕ) (m : MapType)
    → case_insensitive_less j k ≡ true
    → Above j m
    → Above j (insert k v m)
unfolding insert
Above-insert j k v [] h a = (h, tt)
Above-insert j k v ((x, w) ∷ m) h (a, rest) = ground (arith, Above-insert j k v m h rest)

Above-erase : (j k : List ℕ) (m : MapType) → Above j m → Above j (erase k m)
unfolding erase
Above-erase j k [] a = tt
Above-erase j k ((x, w) ∷ m) (a, rest) = ground (arith, Above-erase j k m rest)

-- A name that is the same as `k` is as far below.
Above_same : (j k : List ℕ) (m : MapType) → folded j ≡ folded k → Above k m → Above j m
Above_same j k [] h a = tt
Above_same j k (e ∷ m) h (a, rest) = ((folded_less j k e.0 h).0 ∙ a, Above_same j k m h rest)

pub assign-IsOrdered : (k v : List ℕ) (m : MapType) → IsOrdered m → IsOrdered (assign k v m)
unfolding assign
assign-IsOrdered k v [] _ = (tt, tt)
assign-IsOrdered k v ((x, w) ∷ m) (a, o) =
    ground
      (arith, assign-IsOrdered k v m o, trichotomy x k, Above-assign x k v m, Above_lower k x m, a)

pub insert-IsOrdered : (k v : List ℕ) (m : MapType) → IsOrdered m → IsOrdered (insert k v m)
unfolding insert
insert-IsOrdered k v [] _ = (tt, tt)
insert-IsOrdered k v ((x, w) ∷ m) (a, o) =
    ground
      (arith, insert-IsOrdered k v m o, trichotomy x k, Above-insert x k v m, Above_lower k x m, a)

pub erase-IsOrdered : (k : List ℕ) (m : MapType) → IsOrdered m → IsOrdered (erase k m)
unfolding erase
erase-IsOrdered k [] _ = tt
erase-IsOrdered k ((x, w) ∷ m) (a, o) = ground (arith, erase-IsOrdered k m o, Above-erase x k m, a)

find-Above : (k : List ℕ) (m : MapType) → Above k m → find k m ≡ none
unfolding find
find-Above k [] a = refl
find-Above k ((x, w) ∷ m) (a, rest) = ground (arith, less_asym k x a)

-- A name that is no more than one below every key is not found.
find_below :
    (j x : List ℕ) (m : MapType) → case_insensitive_less x j ≡ false → Above x m → find j m ≡ none
find_below j x m h a = elim (Bool-cases (case_insensitive_less j x)) [
  | inl e ↦ find-Above j m (Above_lower j x m e a)
  | inr e ↦ find-Above j m (Above_same j x m (neither_lem j x e h) a)
]

pub find-erase :
    (j k : List ℕ) (m : MapType)
    → IsOrdered m
    → find j (erase k m) ≡ (if same_name j k then none else find j m)
unfolding find erase
find-erase j k [] o = ground arith
find-erase j k ((x, w) ∷ m) (a, o) = ground (
  arith,
  find-erase j k m o,
  (λ (h : case_insensitive_less x j ≡ false). find_below j x m h a),
  trichotomy j k,
  trichotomy x k,
  trichotomy x j,
  same_name-less j k x,
  same_name-less x k j,
  less_trans j k x,
  less_trans x k j,
)
