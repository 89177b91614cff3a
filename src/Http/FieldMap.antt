-- ===== src/Http/FieldMap.antt =====
-- `MapType` of src/http/include/http.h: a `std::map` from names to values under CaseInsensitiveLess,
-- as the list of its entries in the map's order, and the calls of it that src/http/http.cc makes.
use phase.Base.{
  ℕ, ◌≡◌, true, false, Option, none, some, List, [], ◌∷◌, arith, if◌then◌else◌, All, ◌⊎◌,
}
use phase.Http.Names.{
  case_insensitive_less, same_name, less_trans, less_asym, folded_less, same_name_iff,
}

abbrev pub MapType : Type 0
MapType = List (List ℕ × List ℕ)

-- `find`: the first key that is not less, when it is not greater either.
unfoldable pub find : List ℕ → MapType → Option (List ℕ)
find key [] = none
find key ((k, v) ∷ m) =
    let rest = find key m in
    if case_insensitive_less k key
    then rest
    else if case_insensitive_less key k
    then none
    else some v

-- `m[key] = val`: an entry that is there keeps its key.
unfoldable pub assign : List ℕ → List ℕ → MapType → MapType
assign key val [] = (key, val) ∷ []
assign key val ((k, v) ∷ m) =
    let rest = assign key val m in
    if case_insensitive_less k key
    then (k, v) ∷ rest
    else if case_insensitive_less key k
    then (key, val) ∷ (k, v) ∷ m
    else (k, val) ∷ m

-- `insert`: an entry that is there stays as it is.
unfoldable pub insert : List ℕ → List ℕ → MapType → MapType
insert key val [] = (key, val) ∷ []
insert key val ((k, v) ∷ m) =
    let rest = insert key val m in
    if case_insensitive_less k key
    then (k, v) ∷ rest
    else if case_insensitive_less key k
    then (key, val) ∷ (k, v) ∷ m
    else (k, v) ∷ m

unfoldable pub erase : List ℕ → MapType → MapType
erase key [] = []
erase key ((k, v) ∷ m) =
    let rest = erase key m in
    if case_insensitive_less k key
    then (k, v) ∷ rest
    else if case_insensitive_less key k
    then (k, v) ∷ m
    else m

-- The keys strictly increase, so that no two entries are for the same name.
abbrev pub IsOrdered : MapType → Type 0
IsOrdered [] = Unit
IsOrdered ((k, v) ∷ m) = All (λ e. case_insensitive_less k e.0 ≡ true) m × IsOrdered m

pub same_name-less :
    (j k x : List ℕ)
    → same_name j k ≡ true
    → (case_insensitive_less j x ≡ case_insensitive_less k x)
      × (case_insensitive_less x j ≡ case_insensitive_less x k)
same_name-less j k x h = folded_less j k x ((same_name_iff j k).0 h)

-- Exactly one of the three holds of two names.
pub trichotomy :
    (a b : List ℕ)
    → ((case_insensitive_less a b ≡ true)
        × (case_insensitive_less b a ≡ false)
        × (same_name a b ≡ false))
      ⊎ ((case_insensitive_less a b ≡ false)
          × (case_insensitive_less b a ≡ true)
          × (same_name a b ≡ false))
      ⊎ ((case_insensitive_less a b ≡ false)
          × (case_insensitive_less b a ≡ false)
          × (same_name a b ≡ true))
unfolding same_name
trichotomy a b = ground (arith, less_asym a b, less_asym b a)

pub find-assign :
    (j k v : List ℕ) (m : MapType)
    → find j (assign k v m) ≡ (if same_name j k then some v else find j m)
unfolding find assign
find-assign j k v [] = ground (arith, trichotomy j k)
find-assign j k v ((x, w) ∷ m) = ground (
  arith,
  find-assign j k v m,
  trichotomy j k,
  trichotomy x k,
  trichotomy x j,
  same_name-less j k x,
  same_name-less x k j,
  less_trans j k x,
  less_trans x k j,
)

pub find-insert :
    (j k v : List ℕ) (m : MapType)
    → find j (insert k v m)
      ≡ (if same_name j k then elim (find j m) [ none ↦ some v | some w ↦ some w ] else find j m)
unfolding find insert
find-insert j k v [] = ground (arith, trichotomy j k)
find-insert j k v ((x, w) ∷ m) = ground (
  arith,
  find-insert j k v m,
  trichotomy j k,
  trichotomy x k,
  trichotomy x j,
  same_name-less j k x,
  same_name-less x k j,
  less_trans j k x,
  less_trans x k j,
)

-- Names are told apart up to the case of their letters.
pub same_name-sym : (j k : List ℕ) → same_name j k ≡ same_name k j
unfolding same_name
same_name-sym j k = ground arith
