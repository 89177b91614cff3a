-- ===== src/Http/Codes.antt =====
-- The methods and statuses of src/http/http.cc. The tables HTTP_METHOD_MAP and HTTP_STATUS_MAP belong to
-- the parser's header, which is not this project's: they are arguments here, as the names in the order
-- of the methods' numbers, which count up from 0, and as the codes with their texts.
use phase.Base.{
  ℕ, zero, suc, ◌<◌, ◌≡◌, refl, ap, sym, Bool, true, false, ◌&&◌, none, some, List, [], ◌∷◌, arith,
  length, get_elem?, ◌==◌, if◌then◌else◌, All, Option-cases, inl, inr, ◌≢◌, subst,
}
use mathlib.Core.Option.{some-injective}
use phase.Http.Names.{c_str}

-- The same bytes, as `strcmp` says by 0.
abbrev pub same_bytes : List ℕ → List ℕ → Bool
same_bytes [] [] = true
same_bytes [] (d ∷ str) = false
same_bytes (c ∷ name) [] = false
same_bytes (c ∷ name) (d ∷ str) = (c == d) && same_bytes name str

-- `strncmp(name, str, strlen(name)) == 0`.
abbrev pub is_prefix : List ℕ → List ℕ → Bool
is_prefix [] str = true
is_prefix (c ∷ name) [] = false
is_prefix (c ∷ name) (d ∷ str) = (c == d) && is_prefix name str

-- The number of the first name that passes; INVALID_METHOD is one more than the last method.
abbrev pub first_that : (List ℕ → Bool) → List (List ℕ) → ℕ
first_that test [] = 0
first_that test (name ∷ names) = if test name then 0 else suc (first_that test names)

unfoldable pub string_to_http_method : List (List ℕ) → List ℕ → ℕ
unfolding c_str
string_to_http_method methods m = first_that (λ name. same_bytes name (c_str m)) methods

unfoldable pub chars_to_http_method : List (List ℕ) → List ℕ → ℕ
unfolding c_str
chars_to_http_method methods m = first_that (λ name. is_prefix name (c_str m)) methods

-- "<unknown>".
abbrev pub unknown_text : List ℕ
unknown_text = 60 ∷ 117 ∷ 110 ∷ 107 ∷ 110 ∷ 111 ∷ 119 ∷ 110 ∷ 62 ∷ []

unfoldable pub http_method_to_string : List (List ℕ) → ℕ → List ℕ
http_method_to_string methods m = elim (get_elem? methods m) [
  | none ↦ unknown_text
  | some name ↦ name
]

unfoldable pub http_status_to_string : List (ℕ × List ℕ) → ℕ → List ℕ
http_status_to_string [] s = unknown_text
http_status_to_string ((code, text) ∷ statuses) s =
    let rest = http_status_to_string statuses s in if s == code then text else rest

-- Names without a zero byte.
abbrev pub Plain : List ℕ → Type 0
Plain str = All (λ c. (c == 0) ≡ false) str

-- No name is there twice.
abbrev pub Distinct : List (List ℕ) → Type 0
Distinct [] = Unit
Distinct (name ∷ names) = All (λ other. same_bytes name other ≡ false) names × Distinct names

c_str-Plain : (str : List ℕ) → Plain str → c_str str ≡ str
unfolding c_str
c_str-Plain [] h = refl
c_str-Plain (c ∷ str) (h, hs) = rw (h, c_str-Plain str hs) refl

pub same_bytes_refl : (str : List ℕ) → same_bytes str str ≡ true
same_bytes_refl [] = refl
same_bytes_refl (c ∷ str) = ground (arith, same_bytes_refl str)

pub same_bytes_eq : (a b : List ℕ) → same_bytes a b ≡ true → a ≡ b
same_bytes_eq [] [] h = refl
same_bytes_eq [] (d ∷ b) h = cc
same_bytes_eq (c ∷ a) [] h = cc
same_bytes_eq (c ∷ a) (d ∷ b) h = ground (arith, same_bytes_eq a b)

get_elem?-none : (names : List (List ℕ)) (m : ℕ) → m < length names → get_elem? names m ≢ none
get_elem?-none [] m h e = absurd (omega arith)
get_elem?-none (x ∷ names) zero h e = cc
get_elem?-none (x ∷ names) (suc m) h e = get_elem?-none names m (omega arith) e

nth_All :
    (P : List ℕ → Type 0) (names : List (List ℕ)) (m : ℕ) (name : List ℕ)
    → All P names
    → get_elem? names m ≡ some name
    → P name
nth_All P [] m name a e = cc
nth_All P (x ∷ names) zero name (a, rest) e = subst P (some-injective x name e) a
nth_All P (x ∷ names) (suc m) name (a, rest) e = nth_All P names m name rest e

first_that-nth :
    (names : List (List ℕ)) (m : ℕ) (name : List ℕ)
    → Distinct names
    → get_elem? names m ≡ some name
    → first_that (λ other. same_bytes other name) names ≡ m
first_that-nth [] m name d e = cc
first_that-nth (x ∷ names) zero name (fresh, d) e =
    rw (sym (some-injective x name e), same_bytes_refl x) refl
first_that-nth (x ∷ names) (suc m) name (fresh, d) e =
    rw (nth_All (λ other. same_bytes x other ≡ false) names m name fresh e)
      (ap suc (first_that-nth names m name d e))

-- Every method of the table is read back from its own name, if the names are different and hold no
-- zero byte.
pub string_to_http_method-http_method_to_string :
    (methods : List (List ℕ)) (m : ℕ)
    → Distinct methods
    → All Plain methods
    → m < length methods
    → string_to_http_method methods (http_method_to_string methods m) ≡ m
unfolding string_to_http_method http_method_to_string
string_to_http_method-http_method_to_string methods m d p h =
    elim (Option-cases (get_elem? methods m)) [
      | inl e ↦ absurd (get_elem?-none methods m h e)
      | inr (name, e) ↦
          rw (e, c_str-Plain name (nth_All Plain methods m name p e), http_method_to_string)
            (first_that-nth methods m name d e)
    ]
