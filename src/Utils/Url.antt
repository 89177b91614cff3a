-- ===== src/Utils/Url.antt =====
-- StringUtil::UrlEncode and UrlDecode, with their tables. A string is the list of its bytes.
use phase.Base.{
  ℕ, zero, suc, ◌+◌, ◌*◌, ◌/◌, ◌%◌, Bool, false, not, ◌&&◌, ◌||◌, Option, none, some, List, [], ◌∷◌,
  ◌++◌, take, replicate, get_elem?, leb, ◌==◌, if◌then◌else◌,
}

-- `n` ones between zeros.
abbrev ones : ℕ → List ℕ
ones n = replicate n 1

abbrev zeros : ℕ → List ℕ
zeros n = replicate n 0

-- The rows of `uri_chars`.
abbrev pub uri_chars : List ℕ
uri_chars =
    zeros 32
    ++ zeros 13
    ++ ones 2
    ++ zeros 1
    ++ ones 10
    ++ zeros 3
    ++ ones 1
    ++ zeros 2
    ++ zeros 1
    ++ ones 26
    ++ zeros 4
    ++ ones 1
    ++ zeros 1
    ++ ones 26
    ++ zeros 3
    ++ ones 1
    ++ zeros 1
    ++ zeros 128

abbrev pub ten_to_fifteen : List ℕ
ten_to_fifteen = 10 ∷ 11 ∷ 12 ∷ 13 ∷ 14 ∷ 15 ∷ []

abbrev pub xdigit_chars : List ℕ
xdigit_chars =
    zeros 32
    ++ zeros 17
    ++ (1 ∷ 2 ∷ 3 ∷ 4 ∷ 5 ∷ 6 ∷ 7 ∷ 8 ∷ 9 ∷ [])
    ++ zeros 6
    ++ zeros 1
    ++ ten_to_fifteen
    ++ zeros 25
    ++ zeros 1
    ++ ten_to_fifteen
    ++ zeros 25
    ++ zeros 128

abbrev pub at : List ℕ → ℕ → ℕ
at table i = elim (get_elem? table i) [ none ↦ 0 | some x ↦ x ]

-- CHAR_IS_UNRESERVED.
unfoldable pub unreserved : ℕ → Bool
unreserved c = not (at uri_chars c == 0)

-- "0123456789ABCDEF".
abbrev pub hexdigits : List ℕ
hexdigits = 48 ∷ 49 ∷ 50 ∷ 51 ∷ 52 ∷ 53 ∷ 54 ∷ 55 ∷ 56 ∷ 57 ∷ 65 ∷ 66 ∷ 67 ∷ 68 ∷ 69 ∷ 70 ∷ []

-- isxdigit of the C library, on a byte.
unfoldable pub isxdigit : ℕ → Bool
isxdigit c = (leb 48 c && leb c 57) || (leb 65 c && leb c 70) || (leb 97 c && leb c 102)

-- What stands for a reserved byte: 32 is ' ', 43 '+', 37 '%'.
unfoldable pub escape : Bool → ℕ → List ℕ
escape space_as_plus c =
    if c == 32 && space_as_plus
    then 43 ∷ []
    else 37 ∷ at hexdigits (c / 16) ∷ at hexdigits (c % 16) ∷ []

-- `ss` once it is allocated: it starts with a copy of what was passed.
abbrev pub opened : List ℕ → ℕ → Option (List ℕ) → List ℕ
opened str i none = take i str
opened str i (some ss) = ss

abbrev pub append_if : Option (List ℕ) → ℕ → Option (List ℕ)
append_if none c = none
append_if (some ss) c = some (ss ++ c ∷ [])

-- The loop of UrlEncode; `i` is `c - str.c_str()`.
unfoldable pub encode_loop : List ℕ → Bool → ℕ → List ℕ → Option (List ℕ) → Option (List ℕ)
unfolding unreserved escape
encode_loop str space_as_plus i [] ss = ss
encode_loop str space_as_plus i (c ∷ rest) ss = encode_loop str space_as_plus (suc i) rest (
    if not (unreserved c) then some (opened str i ss ++ escape space_as_plus c) else append_if ss c)

abbrev pub or_same : List ℕ → Option (List ℕ) → List ℕ
or_same str none = str
or_same str (some ss) = ss

unfoldable pub url_encode : List ℕ → Bool → List ℕ
unfolding encode_loop
url_encode str space_as_plus = or_same str (encode_loop str space_as_plus 0 str none)

-- The next two bytes, when they are hexadecimal digits.
abbrev pub two_digits : List ℕ → Bool
two_digits (a ∷ b ∷ rest) = isxdigit a && isxdigit b
two_digits _ = false

-- The byte that two digits stand for: `x << 4 | y`.
abbrev pub digits_value : List ℕ → ℕ
digits_value (a ∷ b ∷ rest) = (at xdigit_chars a * 16 + at xdigit_chars b) % 256
digits_value _ = 0

-- The loop of UrlDecode. `skip` counts the digits of an escape that are still to be passed.
unfoldable pub decode_loop : List ℕ → Bool → ℕ → ℕ → List ℕ → Option (List ℕ) → Option (List ℕ)
unfolding isxdigit
decode_loop str space_as_plus skip i [] ss = ss
decode_loop str space_as_plus (suc skip) i (c ∷ rest) ss =
    decode_loop str space_as_plus skip (suc i) rest ss
decode_loop str space_as_plus zero i (c ∷ rest) ss =
    let escaped = c == 37 && two_digits rest in
    let plus = c == 43 && space_as_plus in
    decode_loop str space_as_plus (if plus then 0 else if escaped then 2 else 0) (suc i) rest (
      if plus
      then some (opened str i ss ++ 32 ∷ [])
      else if escaped
      then some (opened str i ss ++ digits_value rest ∷ [])
      else append_if ss c)

unfoldable pub url_decode : List ℕ → Bool → List ℕ
unfolding decode_loop
url_decode str space_as_plus = or_same str (decode_loop str space_as_plus 0 0 str none)
