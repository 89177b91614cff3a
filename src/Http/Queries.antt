-- ===== src/Http/Queries.antt =====
-- A query that was printed with UrlEncode is read back by HttpRequest::getParam of src/http/http.cc.
use phase.Base.{
  ℕ, ◌<◌, ◌≡◌, refl, ap, sym, subst, ◌∙◌, Bool, true, false, not, ◌&&◌, ◌||◌, Option, none, some,
  List, [], ◌∷◌, ◌++◌, arith, ◌==◌, if◌then◌else◌, All, bit_and, bit_or,
}
use phase.Utils.Url.{url_encode, url_decode, unreserved, escape}
use phase.Utils.UrlLaws.{
  encoded, encode_byte, url_encode-encoded, url_decode-url_encode, passes, passes_lem,
}
use phase.Http.Names.{same_name}
use phase.Http.FieldMap.{MapType, find, insert, find-insert}
use phase.Http.Params.{parse_param, add_pair, Free}
use phase.Http.ParamLaws.{joined, Printable, add_pairs, parse_param-joined}
use phase.Http.Message.{
  ◌>>=◌, HttpRequest, get_header, value_or, init_query_param, init_body_param, flagged, set_flag,
  content_type_name, form_urlencoded, strcasestr,
}
use phase.Http.Requests.{get_param}

abbrev lacks : ℕ → List ℕ → Bool
lacks c [] = true
lacks c (d ∷ str) = not (d == c) && lacks c str

-- '&' is never in what stands for a byte, and '=' only in what stands for '=' itself.
abbrev separate : ℕ → Bool
separate c = ((c == 61) || lacks 61 (encode_byte true c)) && lacks 38 (encode_byte true c)

all_separate : passes separate 256 ≡ true
unfolding unreserved escape
all_separate = refl

lacks-Free : (c : ℕ) (str : List ℕ) → lacks c str ≡ true → Free c str
lacks-Free c [] h = tt
lacks-Free c (d ∷ str) h = ground (arith, h, lacks-Free c str)

Free-append : (c : ℕ) (a b : List ℕ) → Free c a → Free c b → Free c (a ++ b)
Free-append c [] b h k = k
Free-append c (x ∷ a) b (h, hs) k = (h, Free-append c a b hs k)

separate_lem :
    (c : ℕ)
    → c < 256
    → (((c == 61) || lacks 61 (encode_byte true c)) ≡ true) × (lacks 38 (encode_byte true c) ≡ true)
separate_lem c h = ground (arith, passes_lem separate 256 c all_separate h)

encoded_value : (str : List ℕ) → All (λ c. c < 256) str → Free 38 (encoded true str)
unfolding encoded
encoded_value [] h = tt
encoded_value (c ∷ str) (h, hs) =
    Free-append 38 (encode_byte true c) (encoded true str)
      (lacks-Free 38 (encode_byte true c) (separate_lem c h).1) (encoded_value str hs)

encoded_key : (str : List ℕ) → All (λ c. c < 256) str → Free 61 str → Free 61 (encoded true str)
unfolding encoded
encoded_key [] h f = tt
encoded_key (c ∷ str) (h, hs) (f, fs) =
    Free-append 61 (encode_byte true c) (encoded true str)
      (lacks-Free 61 (encode_byte true c) (ground (arith, f, (separate_lem c h).0)))
      (encoded_key str hs fs)

-- Each key and each value is encoded.
unfoldable pub encoded_pairs : List (List ℕ × List ℕ) → List (List ℕ × List ℕ)
encoded_pairs [] = []
encoded_pairs ((k, v) ∷ pairs) = (url_encode k true, url_encode v true) ∷ encoded_pairs pairs

-- Strings of bytes, and no '=' in a key: UrlEncode does not encode that byte.
abbrev pub Encodable : List (List ℕ × List ℕ) → Type 0
Encodable pairs = All (λ e. (All (λ c. c < 256) e.0 × Free 61 e.0) × All (λ c. c < 256) e.1) pairs

encoded_pairs-Printable :
    (pairs : List (List ℕ × List ℕ)) → Encodable pairs → Printable 38 (encoded_pairs pairs)
unfolding encoded_pairs
encoded_pairs-Printable [] h = tt
encoded_pairs-Printable ((k, v) ∷ pairs) (((hk, apart), hv), h) = (
  (
    subst (Free 61) (sym (url_encode-encoded k true)) (encoded_key k hk apart),
    subst (Free 38) (sym (url_encode-encoded v true)) (encoded_value v hv),
  ),
  encoded_pairs-Printable pairs h,
)

-- The value of the first pair whose key is the same name.
unfoldable pub first_value : List ℕ → List (List ℕ × List ℕ) → Option (List ℕ)
first_value key [] = none
first_value key ((k, v) ∷ pairs) =
    let rest = first_value key pairs in if same_name key k then some v else rest

find-add_pairs :
    (key : List ℕ) (pairs : List (List ℕ × List ℕ)) (m : MapType)
    → Encodable pairs
    → find key (add_pairs (λ k. k) (encoded_pairs pairs) m)
      ≡ elim (find key m) [ none ↦ first_value key pairs | some w ↦ some w ]
unfolding encoded_pairs add_pairs first_value
find-add_pairs key [] m h = ground arith
find-add_pairs key ((k, v) ∷ pairs) m (((hk, apart), hv), h) =
    let first : add_pair (λ k. k) (url_encode k true) (url_encode v true) m ≡ insert k v m =
      ap (λ z. insert z (url_decode (url_encode v true) true) m)
        (url_decode-url_encode k true true hk)
      ∙ ap (λ z. insert k z m) (url_decode-url_encode v true true hv) in
    ap (λ n. find key (add_pairs (λ k. k) (encoded_pairs pairs) n)) first
    ∙ find-add_pairs key pairs (insert k v m) h
    ∙ ground (arith, find-insert key k v m)

-- A query of pairs that were encoded and joined by '&' is read back: GetParam returns the value of
-- the first pair whose key differs from the asked one at most in the case of its letters, or the
-- default, when the parameters are still to be read and the body is no form.
pub get_param-printed :
    (r : HttpRequest) (pairs : List (List ℕ × List ℕ)) (key def : List ℕ)
    → r.parser_param_flag ≡ 0
    → r.params ≡ []
    → strcasestr (get_header r content_type_name []) form_urlencoded ≡ false
    → Encodable pairs
    → (s : HttpRequest) × (get_param (record r { query = joined 38 (encoded_pairs pairs) }) key def
        ≡ some (value_or (first_value key pairs) def, s))
unfolding get_param get_header init_query_param init_body_param first_value find
get_param-printed r pairs key def f e c h =
    let asked : HttpRequest = record r { query = joined 38 (encoded_pairs pairs) } in
    let n : MapType = add_pairs (λ k. k) (encoded_pairs pairs) [] in
    let parsed : parse_param (λ k. k) 38 asked.query asked.params ≡ some n =
      ap (parse_param (λ k. k) 38 asked.query) e
      ∙ parse_param-joined (λ k. k) 38 (encoded_pairs pairs) [] refl
          (encoded_pairs-Printable pairs h) in
    let once : HttpRequest = set_flag 1 (record asked { params = n }) in
    let unread : flagged asked 1 ≡ false = ap (λ z. not (bit_and z 1 == 0)) f in
    let still : flagged once 2 ≡ false = ap (λ z. not (bit_and (bit_or z 1) 2 == 0)) f in
    let q : init_query_param asked ≡ some once = rw (unread, parsed, init_query_param) refl in
    let no_form : strcasestr (get_header once content_type_name []) form_urlencoded ≡ false = c in
    let b : init_body_param once ≡ some (set_flag 2 once) =
      rw (still, no_form, init_body_param) refl in
    (
      set_flag 2 once,
      ap (λ o. (o >>= init_body_param) >>= λ s. some (value_or (find key s.params) def, s)) q
          ∙ ap (λ o. o >>= λ s. some (value_or (find key s.params) def, s)) b
          ∙ ap (λ o. some (value_or o def, set_flag 2 once)) (find-add_pairs key pairs [] h),
    )
