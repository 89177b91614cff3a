-- ===== src/Log/Pattern.antt =====
-- LogFormatter::init of src/log/Logger.cc. A string is the list of its bytes.
use phase.Base.{
  ℕ, zero, suc, ◌+◌, ◌-◌, Bool, true, false, not, ◌&&◌, ◌||◌, Option, none, some, List, [], ◌∷◌,
  ◌++◌, length, take, drop, ltb, leb, ◌==◌, if◌then◌else◌,
}

-- isalpha of the C library, on a byte.
abbrev pub isalpha : ℕ → Bool
isalpha c = (leb 65 c && leb c 90) || (leb 97 c && leb c 122)

-- `m_pattern[n]`, and `substr`.
abbrev pub byte_at : List ℕ → ℕ → ℕ
byte_at [] n = 0
byte_at (c ∷ str) zero = c
byte_at (c ∷ str) (suc n) = byte_at str n

abbrev pub substr : List ℕ → ℕ → ℕ → List ℕ
substr str pos n = take n (drop pos str)

abbrev pub is_empty : List ℕ → Bool
is_empty [] = true
is_empty (c ∷ str) = false

-- An entry of `vec`: a text, or a directive with its name and its format.
pub data Entry : Type 0 where
  text : List ℕ → Entry
  directive : List ℕ → List ℕ → Entry

-- What the inner loop leaves: `n`, whether `fmtStatus` is 1, `str` and `fmt`.
pub record Scanned : Type 0 where
  pub at : ℕ
  pub in_format : Bool
  pub str : List ℕ
  pub fmt : List ℕ

abbrev pub leave : ℕ → Bool → List ℕ → List ℕ → Scanned
leave n in_format str fmt = record { at = n; in_format = in_format; str = str; fmt = fmt }

-- The byte ends a directive's name: 123 is '{' and 125 '}'.
abbrev pub ends_name : ℕ → Bool
ends_name c = not (isalpha c) && (not (c == 123) && not (c == 125))

-- The inner loop of the directive at `i`; `begin` is `fmtBegin`. `none`, when the rounds are over.
unfoldable pub scan : ℕ → List ℕ → ℕ → ℕ → Bool → ℕ → List ℕ → List ℕ → Option Scanned
scan zero pattern i n in_format begin str fmt = none
scan (suc fuel) pattern i n in_format begin str fmt =
    let rest = scan fuel pattern i (n + 1) true n (substr pattern (i + 1) (n - i - 1)) fmt in
    let str' : List ℕ =
      if (n + 1 == length pattern) && is_empty str then drop (i + 1) pattern else str in
    let next = scan fuel pattern i (n + 1) in_format begin str' fmt in
    if not (ltb n (length pattern))
    then some (leave n in_format str fmt)
    else if not in_format && ends_name (byte_at pattern n)
    then some (leave n in_format (substr pattern (i + 1) (n - i - 1)) fmt)
    else if not in_format && byte_at pattern n == 123
    then rest
    else if in_format && byte_at pattern n == 125
    then some (leave (n + 1) false str (substr pattern (begin + 1) (n - begin - 1)))
    else next

-- The inner loop, with enough rounds.
unfoldable pub scan_from : List ℕ → ℕ → Option Scanned
unfolding scan
scan_from pattern i = scan (suc (length pattern)) pattern i (i + 1) false 0 [] []

-- "<<pattern_error>>".
abbrev pub pattern_error : List ℕ
pattern_error =
    60 ∷ 60 ∷ 112 ∷ 97 ∷ 116 ∷ 116 ∷ 101 ∷ 114 ∷ 110 ∷ 95 ∷ 101 ∷ 114 ∷ 114 ∷ 111 ∷ 114 ∷ 62 ∷ 62
    ∷ []

-- `nstr` put into `vec`, unless it is empty.
abbrev pub flushed : List Entry → List ℕ → List Entry
flushed vec [] = vec
flushed vec (c ∷ nstr) = vec ++ text (c ∷ nstr) ∷ []

-- `vec` and `m_error` after the loop.
abbrev pub Parsed : Type 0
Parsed = List Entry × Bool

-- The outer loop at `i`; 37 is '%'.
unfoldable pub pattern_loop : ℕ → List ℕ → ℕ → List ℕ → List Entry → Bool → Option Parsed
unfolding scan_from
pattern_loop zero pattern i nstr vec error = none
pattern_loop (suc fuel) pattern i nstr vec error =
    if not (ltb i (length pattern))
    then some (flushed vec nstr, error)
    else if not (byte_at pattern i == 37)
    then pattern_loop fuel pattern (i + 1) (nstr ++ byte_at pattern i ∷ []) vec error
    else if ltb (i + 1) (length pattern) && byte_at pattern (i + 1) == 37
    then pattern_loop fuel pattern (i + 1) (nstr ++ 37 ∷ []) vec error
    else elim (scan_from pattern i) [
      | none ↦ none
      | some r ↦
          if not r.in_format
          then pattern_loop fuel pattern r.at [] (flushed vec nstr ++ directive r.str r.fmt ∷ [])
              error
          else pattern_loop fuel pattern (i + 1) nstr (vec ++ text pattern_error ∷ []) true
    ]

-- A format item: a text, or the item for a directive's letter with its format.
pub data FormatItem : Type 0 where
  string_item : List ℕ → FormatItem
  known_item : ℕ → List ℕ → FormatItem

-- The letters of `s_format_items`: mprcntdflTFN.
abbrev pub is_known : ℕ → Bool
is_known c =
    (c == 109)
    || (c == 112)
    || (c == 114)
    || (c == 99)
    || (c == 116)
    || (c == 110)
    || (c == 100)
    || (c == 102)
    || (c == 108)
    || (c == 84)
    || (c == 70)
    || (c == 78)

-- "<<error_format %" and ">>".
abbrev pub error_format : List ℕ → List ℕ
error_format str =
    (60 ∷ 60 ∷ 101 ∷ 114 ∷ 114 ∷ 111 ∷ 114 ∷ 95 ∷ 102 ∷ 111 ∷ 114 ∷ 109 ∷ 97 ∷ 116 ∷ 32 ∷ 37 ∷ [])
    ++ str
    ++ (62 ∷ 62 ∷ [])

-- The item of an entry, and whether there is none for it.
unfoldable pub item_of : Entry → FormatItem × Bool
item_of (text str) = (string_item str, false)
item_of (directive [] fmt) = (string_item (error_format []), true)
item_of (directive (c ∷ []) fmt) =
    if is_known c then (known_item c fmt, false) else (string_item (error_format (c ∷ [])), true)
item_of (directive (c ∷ (d ∷ str)) fmt) = (string_item (error_format (c ∷ d ∷ str)), true)

abbrev pub items_of : List Entry → List FormatItem × Bool
items_of [] = ([], false)
items_of (e ∷ vec) =
    let (item, unknown) = item_of e in
    let (items, others) = items_of vec in (item ∷ items, unknown || others)

abbrev pub finished : Option Parsed → Option (List FormatItem × Bool)
finished none = none
finished (some (vec, error)) = let (items, unknown) = items_of vec in some (items, error || unknown)

-- `m_items` and `m_error`.
unfoldable pub init_format : List ℕ → Option (List FormatItem × Bool)
unfolding pattern_loop item_of
init_format pattern = finished (pattern_loop (suc (length pattern)) pattern 0 [] [] false)
