-- ===== src/Http/Params.antt =====
-- PARSE_PARAM of src/http/http.cc, the loop that reads `key=value` pairs into a map.
use phase.Base.{
  ℕ, zero, suc, ◌+◌, ◌-◌, ◌<◌, ◌≤◌, ◌≡◌, refl, ap, sym, ◌∙◌, true, false, Option, none, some, List,
  [], ◌∷◌, ◌++◌, arith, length, take, drop, ◌==◌, if◌then◌else◌, All, Bool-cases, inl, inr,
  Option-cases, drop-drop, ==_iff, take_front, drop_front, length-drop,
}
use phase.Utils.Url.{url_decode}
use phase.Http.FieldMap.{MapType, insert}

-- Where the byte `c` stands first.
unfoldable pub index_of : ℕ → List ℕ → Option ℕ
index_of c [] = none
index_of c (d ∷ str) =
    let rest = index_of c str in
    if d == c then some 0 else elim rest [ none ↦ none | some i ↦ some (suc i) ]

-- `str.find(c, pos)`; `none` is `npos`.
unfoldable pub find_from : List ℕ → ℕ → ℕ → Option ℕ
unfolding index_of
find_from str c pos = elim (index_of c (drop pos str)) [ none ↦ none | some i ↦ some (pos + i) ]

-- `str.substr(pos, n)`; what is asked for past the end is not there.
abbrev pub substr : List ℕ → ℕ → ℕ → List ℕ
substr str pos n = take n (drop pos str)

-- One pair put into the map.
abbrev pub add_pair : (List ℕ → List ℕ) → List ℕ → List ℕ → MapType → MapType
add_pair trim key value m = insert (url_decode (trim key) true) (url_decode value true) m

-- The rounds of the loop, of which `fuel` are allowed; `pos` is where a round begins. Each ends with
-- `none` for `pos`, or one past the separator `flag`.
unfoldable pub parse_loop : (List ℕ → List ℕ) → ℕ → ℕ → List ℕ → ℕ → MapType → Option MapType
unfolding find_from
parse_loop trim flag zero str pos m = none
parse_loop trim flag (suc fuel) str last m = elim (find_from str 61 last) [
  | none ↦ some m
  | some key ↦ elim (find_from str flag key) [
    | none ↦ some (add_pair trim (substr str last (key - last)) (drop (key + 1) str) m)
    | some pos ↦
        parse_loop trim flag fuel str (pos + 1)
          (add_pair trim (substr str last (key - last)) (substr str (key + 1) (pos - key - 1)) m)
  ]
]

-- A round begins further on than the one before, so that these rounds are enough.
unfoldable pub parse_param : (List ℕ → List ℕ) → ℕ → List ℕ → MapType → Option MapType
unfolding parse_loop
parse_param trim flag str m = parse_loop trim flag (suc (length str)) str 0 m

-- `c` is nowhere in the string.
abbrev pub Free : ℕ → List ℕ → Type 0
Free c str = All (λ d. (d == c) ≡ false) str

index_of-none : (c : ℕ) (str : List ℕ) → Free c str → index_of c str ≡ none
unfolding index_of
index_of-none c [] h = refl
index_of-none c (d ∷ str) (h, hs) = rw (h, index_of-none c str hs) refl

index_of-found :
    (c : ℕ) (front back : List ℕ)
    → Free c front
    → index_of c (front ++ c ∷ back) ≡ some (length front)
unfolding index_of
index_of-found c [] back h = rw ((==_iff c c).1 refl) refl
index_of-found c (d ∷ front) back (h, hs) = rw (h, index_of-found c front back hs) refl

index_of-bound : (c i : ℕ) (str : List ℕ) → index_of c str ≡ some i → i < length str
unfolding index_of
index_of-bound c i [] e = cc
index_of-bound c i (d ∷ str) e = elim (Bool-cases (d == c)) [
  | inl h ↦ ground (arith, h, e)
  | inr h ↦ elim (Option-cases (index_of c str)) [
    | inl f ↦ absurd (ground (arith, h, f, e))
    | inr (j, f) ↦ ground (arith, h, f, e, index_of-bound c j str f)
  ]
]

pub find_from-bounds :
    (str : List ℕ) (c pos i : ℕ) → find_from str c pos ≡ some i → (pos ≤ i) × (i < length str)
unfolding find_from
find_from-bounds str c pos i e = elim (Option-cases (index_of c (drop pos str))) [
  | inl f ↦ absurd (ground (arith, f, e))
  | inr (j, f) ↦ ground (arith, f, e, index_of-bound c j (drop pos str) f, length-drop pos str)
]

find_from-found :
    (str : List ℕ) (c pos : ℕ) (front back : List ℕ)
    → drop pos str ≡ front ++ c ∷ back
    → Free c front
    → find_from str c pos ≡ some (pos + length front)
unfolding find_from
find_from-found str c pos front back e h =
    rw (ap (index_of c) e ∙ index_of-found c front back h, find_from) refl

find_from-none :
    (str : List ℕ) (c pos : ℕ) (rest : List ℕ)
    → drop pos str ≡ rest
    → Free c rest
    → find_from str c pos ≡ none
unfolding find_from
find_from-none str c pos rest e h = rw (ap (index_of c) e ∙ index_of-none c rest h, find_from) refl

pub drop_past :
    (str : List ℕ) (pos : ℕ) (front back : List ℕ)
    → drop pos str ≡ front ++ back
    → drop (pos + length front) str ≡ back
drop_past str pos front back e =
    sym (drop-drop (length front) pos str) ∙ ap (drop (length front)) e ∙ drop_front front back

pub drop_one :
    (str : List ℕ) (pos c : ℕ) (back : List ℕ) → drop pos str ≡ c ∷ back → drop (pos + 1) str ≡ back
drop_one str pos c back e = drop_past str pos (c ∷ []) back e

take_there :
    (str : List ℕ) (pos n : ℕ) (front back : List ℕ)
    → drop pos str ≡ front ++ back
    → n ≡ length front
    → substr str pos n ≡ front
take_there str pos n front back e h =
    ap (λ z. take n z) e ∙ ap (λ i. take i (front ++ back)) h ∙ take_front front back

-- One round that ends at a separator.
pub parse_loop_round :
    (trim : List ℕ → List ℕ) (flag fuel : ℕ) (str : List ℕ) (last : ℕ) (m : MapType)
    → (k v rest : List ℕ) → drop last str ≡ k ++ (61 ∷ v ++ flag ∷ rest)
    → Free 61 k
    → Free flag (61 ∷ v)
    → parse_loop trim flag (suc fuel) str last m
      ≡ parse_loop trim flag fuel str (last + length k + suc (length v) + 1) (add_pair trim k v m)
unfolding parse_loop
parse_loop_round trim flag fuel str last m k v rest e hk hv =
    let after : drop (last + length k) str ≡ (61 ∷ v) ++ flag ∷ rest =
      drop_past str last k (61 ∷ v ++ flag ∷ rest) e in
    rw
      (
        find_from-found str 61 last k _ e hk,
        find_from-found str flag (last + length k) (61 ∷ v) rest after hv,
        take_there str last (last + length k - last) k (61 ∷ v ++ flag ∷ rest) e (omega arith),
        take_there str (last + length k + 1)
            (last + length k + suc (length v) - (last + length k) - 1) v (flag ∷ rest)
            (drop_one str (last + length k) 61 (v ++ flag ∷ rest) after) (omega arith),
        parse_loop,
      )
      refl

-- The round that meets no further separator is the last.
pub parse_loop_last :
    (trim : List ℕ → List ℕ) (flag fuel : ℕ) (str : List ℕ) (last : ℕ) (m : MapType)
    → (k v : List ℕ) → drop last str ≡ k ++ 61 ∷ v
    → Free 61 k
    → Free flag (61 ∷ v)
    → parse_loop trim flag (suc fuel) str last m ≡ some (add_pair trim k v m)
unfolding parse_loop
parse_loop_last trim flag fuel str last m k v e hk hv =
    let after : drop (last + length k) str ≡ 61 ∷ v = drop_past str last k _ e in
    rw
      (
        find_from-found str 61 last k _ e hk,
        find_from-none str flag (last + length k) (61 ∷ v) after hv,
        take_there str last (last + length k - last) k (61 ∷ v) e (omega arith),
        drop_one str (last + length k) 61 v after,
        parse_loop,
      )
      refl

-- A round that meets no `=` ends the loop.
pub parse_loop_end :
    (trim : List ℕ → List ℕ) (flag fuel : ℕ) (str : List ℕ) (last : ℕ) (m : MapType) (rest : List ℕ)
    → drop last str ≡ rest
    → Free 61 rest
    → parse_loop trim flag (suc fuel) str last m ≡ some m
unfolding parse_loop
parse_loop_end trim flag fuel str last m rest e h =
    rw (find_from-none str 61 last rest e h, parse_loop) refl
