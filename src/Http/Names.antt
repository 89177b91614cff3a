-- ===== src/Http/Names.antt =====
-- The names of header fields: CaseInsensitiveLess of src/http/http.cc. A string is the list of its
-- bytes.
use phase.Base.{
  ℕ, ◌+◌, ◌≡◌, refl, ap, Bool, true, false, not, ◌&&◌, List, [], ◌∷◌, arith, ltb, leb, ◌⊎◌, inl,
  inr, ◌↔◌, Bool-cases, ◌==◌, if◌then◌else◌, map,
}

-- The sign of what `strcasecmp` returns.
pub data Sign : Type 0 where
  less same greater : Sign

-- tolower of the C library, on a byte.
unfoldable pub tolower : ℕ → ℕ
tolower c = if leb 65 c && leb c 90 then c + 32 else c

-- The bytes that a C string shows: those before the first zero.
unfoldable pub c_str : List ℕ → List ℕ
c_str [] = []
c_str (c ∷ str) = let rest = c_str str in if c == 0 then [] else c ∷ rest

-- What `strcasecmp` compares.
unfoldable pub folded : List ℕ → List ℕ
unfolding c_str tolower
folded str = map tolower (c_str str)

unfoldable pub compare : List ℕ → List ℕ → Sign
compare [] [] = same
compare [] (b ∷ rhs) = less
compare (a ∷ lhs) [] = greater
compare (a ∷ lhs) (b ∷ rhs) =
    let rest = compare lhs rhs in if ltb a b then less else if ltb b a then greater else rest

unfoldable pub strcasecmp : List ℕ → List ℕ → Sign
unfolding compare folded
strcasecmp lhs rhs = compare (folded lhs) (folded rhs)

-- `< 0` of that sign.
abbrev negative : Sign → Bool
negative less = true
negative same = false
negative greater = false

-- `== 0` of that sign.
abbrev pub is_same : Sign → Bool
is_same less = false
is_same same = true
is_same greater = false

-- `operator()` of CaseInsensitiveLess.
unfoldable pub case_insensitive_less : List ℕ → List ℕ → Bool
unfolding strcasecmp
case_insensitive_less lhs rhs = negative (strcasecmp lhs rhs)

-- Neither name is less than the other: what `std::map` takes for the same key.
unfoldable pub same_name : List ℕ → List ℕ → Bool
unfolding case_insensitive_less
same_name lhs rhs = not (case_insensitive_less lhs rhs) && not (case_insensitive_less rhs lhs)

pub compare_self : (a : List ℕ) → compare a a ≡ same
unfolding compare
compare_self [] = refl
compare_self (x ∷ a) = ground (arith, compare_self a)

pub compare_same : (a b : List ℕ) → compare a b ≡ same → a ≡ b
unfolding compare
compare_same [] [] e = refl
compare_same [] (y ∷ b) e = cc
compare_same (x ∷ a) [] e = cc
compare_same (x ∷ a) (y ∷ b) e = ground (arith, compare_same a b)

pub compare_turned : (a b : List ℕ) → compare a b ≡ greater → compare b a ≡ less
unfolding compare
compare_turned [] [] e = cc
compare_turned [] (y ∷ b) e = cc
compare_turned (x ∷ a) [] e = refl
compare_turned (x ∷ a) (y ∷ b) e = ground (arith, compare_turned a b)

pub compare_trans : (a b c : List ℕ) → compare a b ≡ less → compare b c ≡ less → compare a c ≡ less
unfolding compare
compare_trans a [] [] e f = cc
compare_trans [] b [] e f = elim b [ [] ↦ cc | y ∷ ys ↦ cc ]
compare_trans [] b (z ∷ c) e f = refl
compare_trans (x ∷ a) [] c e f = cc
compare_trans (x ∷ a) (y ∷ b) [] e f = cc
compare_trans (x ∷ a) (y ∷ b) (z ∷ c) e f = ground (arith, compare_trans a b c)

compare_back : (a b : List ℕ) → compare a b ≡ less → compare b a ≡ greater
unfolding compare
compare_back [] [] e = cc
compare_back [] (y ∷ b) e = refl
compare_back (x ∷ a) [] e = cc
compare_back (x ∷ a) (y ∷ b) e = ground (arith, compare_back a b)

Sign-cases : (s : Sign) → (s ≡ less) ⊎ (s ≡ same) ⊎ (s ≡ greater)
Sign-cases less = inl refl
Sign-cases same = inr (inl refl)
Sign-cases greater = inr (inr refl)

less_iff : (a b : List ℕ) → (case_insensitive_less a b ≡ true) ↔ (strcasecmp a b ≡ less)
unfolding case_insensitive_less
less_iff a b = elim (Sign-cases (strcasecmp a b)) [
  | inl e ↦ (λ _. e, λ _. rw (e, case_insensitive_less) refl)
  | inr (inl e) ↦ (λ h. cc, λ h. cc)
  | inr (inr e) ↦ (λ h. cc, λ h. cc)
]

pub less_trans :
    (a b c : List ℕ)
    → case_insensitive_less a b ≡ true
    → case_insensitive_less b c ≡ true
    → case_insensitive_less a c ≡ true
unfolding strcasecmp
less_trans a b c h k =
    (less_iff a c).1
      (compare_trans (folded a) (folded b) (folded c) ((less_iff a b).0 h) ((less_iff b c).0 k))

pub less_asym :
    (a b : List ℕ) → case_insensitive_less a b ≡ true → case_insensitive_less b a ≡ false
unfolding strcasecmp case_insensitive_less
less_asym a b h = ap negative (compare_back (folded a) (folded b) ((less_iff a b).0 h))

-- Names that `std::map` takes for one are the same up to the case of their letters.
pub neither_lem :
    (a b : List ℕ)
    → case_insensitive_less a b ≡ false
    → case_insensitive_less b a ≡ false
    → folded a ≡ folded b
unfolding strcasecmp
neither_lem a b h k = elim (Sign-cases (strcasecmp a b)) [
  | inl e ↦ absurd (cc ((less_iff a b).1 e))
  | inr (inl e) ↦ compare_same (folded a) (folded b) e
  | inr (inr e) ↦ absurd (cc ((less_iff b a).1 (compare_turned (folded a) (folded b) e)))
]

pub folded_less :
    (a b c : List ℕ)
    → folded a ≡ folded b
    → (case_insensitive_less a c ≡ case_insensitive_less b c)
      × (case_insensitive_less c a ≡ case_insensitive_less c b)
unfolding strcasecmp case_insensitive_less
folded_less a b c e =
    (ap (λ z. negative (compare z (folded c))) e, ap (λ z. negative (compare (folded c) z)) e)

pub less_irrefl : (a : List ℕ) → case_insensitive_less a a ≡ false
unfolding strcasecmp case_insensitive_less
less_irrefl a = ap negative (compare_self (folded a))

pub same_name_iff : (a b : List ℕ) → (same_name a b ≡ true) ↔ (folded a ≡ folded b)
unfolding same_name
same_name_iff a b = (
  λ h. elim (Bool-cases (case_insensitive_less a b)) [
    | inl e ↦ absurd (ground (arith, e, h))
    | inr e ↦ elim (Bool-cases (case_insensitive_less b a)) [
      | inl f ↦ absurd (ground (arith, e, f, h))
      | inr f ↦ neither_lem a b e f
    ]
  ],
  λ e. rw ((folded_less a b b e).0, (folded_less a b b e).1, less_irrefl b, same_name) refl,
)
