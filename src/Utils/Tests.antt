-- ===== src/Utils/Tests.antt =====
-- The theorems on the string functions at concrete strings.
use phase.Base.{ℕ, ◌≡◌, refl, arith, true, false, ◌||◌, List, [], ◌∷◌}
use phase.Utils.Url.{unreserved, escape, encode_loop, url_encode, url_decode}
use phase.Utils.UrlLaws.{url_decode-url_encode}
use phase.Utils.Strings.{find_last_not_of, trim_right}

-- "a b".
abbrev a_b : List ℕ
a_b = 97 ∷ 32 ∷ 98 ∷ []

-- "a+b" and "a%20b".
a_plus_b : url_encode a_b true ≡ 97 ∷ 43 ∷ 98 ∷ []
unfolding url_encode encode_loop escape unreserved
a_plus_b = refl

a_escape_b : url_encode a_b false ≡ 97 ∷ 37 ∷ 50 ∷ 48 ∷ 98 ∷ []
unfolding url_encode encode_loop escape unreserved
a_escape_b = refl

url_decode-url_encode_example : url_decode (url_encode a_b true) (true || false) ≡ a_b
url_decode-url_encode_example =
    url_decode-url_encode a_b true false (omega arith, (omega arith, (omega arith, tt)))

-- " a " without spaces.
abbrev spaced : List ℕ
spaced = 32 ∷ 97 ∷ 32 ∷ []

abbrev space : List ℕ
space = 32 ∷ []

-- TrimRight of " a " is " ".
cut_too_far : trim_right spaced space ≡ 32 ∷ []
unfolding trim_right find_last_not_of
cut_too_far = refl
