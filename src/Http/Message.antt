-- ===== src/Http/Message.antt =====
-- HttpRequest and HttpResponse of src/http/http.cc and src/http/include/http.h, without their printing.
-- A method and a status are their numbers. A call that reads parameters or cookies returns `none` only
-- if the loop that parses them would not end.
use phase.Base.{
  ℕ, Bool, true, false, not, ◌&&◌, ◌||◌, Option, none, some, List, [], ◌∷◌, bit_and, bit_or, ◌==◌,
  if◌then◌else◌,
}
use phase.Utils.Strings.{trim}
use phase.Http.Names.{is_same, strcasecmp, folded}
use phase.Http.FieldMap.{MapType, find}
use phase.Http.Params.{parse_param}

infixl 5 ◌>>=◌
abbrev pub ◌>>=◌ {ℓ κ} : {A : Type ℓ} {B : Type κ} → Option A → (A → Option B) → Option B
none >>= f = none
some a >>= f = f a

pub record HttpRequest : Type 0 where
  pub method : ℕ
  pub version : ℕ
  pub close : Bool
  pub websocket : Bool
  pub parser_param_flag : ℕ
  pub path : List ℕ
  pub query : List ℕ
  pub fragment : List ℕ
  pub body : List ℕ
  pub headers : MapType
  pub params : MapType
  pub cookies : MapType

pub record HttpResponse : Type 0 where
  pub status : ℕ
  pub version : ℕ
  pub close : Bool
  pub websocket : Bool
  pub body : List ℕ
  pub reason : List ℕ
  pub headers : MapType
  pub cookies : List (List ℕ)

-- HttpMethod::GET, whose place in the table of methods is 1.
abbrev pub method_get : ℕ
method_get = 1

-- The constructor: the path is "/".
unfoldable pub new_request : ℕ → Bool → HttpRequest
new_request version close = record {
  method = method_get;
  version = version;
  close = close;
  websocket = false;
  parser_param_flag = 0;
  path = 47 ∷ [];
  query = [];
  fragment = [];
  body = [];
  headers = [];
  params = [];
  cookies = [];
}

-- HttpStatus::OK and HttpStatus::FOUND.
abbrev pub status_ok : ℕ
status_ok = 200

abbrev pub status_found : ℕ
status_found = 302

unfoldable pub new_response : ℕ → Bool → HttpResponse
new_response version close = record {
  status = status_ok;
  version = version;
  close = close;
  websocket = false;
  body = [];
  reason = [];
  headers = [];
  cookies = [];
}

unfoldable pub create_response : HttpRequest → HttpResponse
unfolding new_response
create_response r = new_response r.version r.close

-- The value under the key, or the default.
abbrev pub value_or : Option (List ℕ) → List ℕ → List ℕ
value_or none def = def
value_or (some v) def = v

unfoldable pub get_header : HttpRequest → List ℕ → List ℕ → List ℕ
get_header r key def = value_or (find key r.headers) def

-- "content-type", "cookie" and "connection".
abbrev pub content_type_name : List ℕ
content_type_name = 99 ∷ 111 ∷ 110 ∷ 116 ∷ 101 ∷ 110 ∷ 116 ∷ 45 ∷ 116 ∷ 121 ∷ 112 ∷ 101 ∷ []

abbrev pub cookie_name : List ℕ
cookie_name = 99 ∷ 111 ∷ 111 ∷ 107 ∷ 105 ∷ 101 ∷ []

abbrev pub connection_name : List ℕ
connection_name = 99 ∷ 111 ∷ 110 ∷ 110 ∷ 101 ∷ 99 ∷ 116 ∷ 105 ∷ 111 ∷ 110 ∷ []

-- "keep-alive".
abbrev pub keep_alive : List ℕ
keep_alive = 107 ∷ 101 ∷ 101 ∷ 112 ∷ 45 ∷ 97 ∷ 108 ∷ 105 ∷ 118 ∷ 101 ∷ []

-- "application/x-www-form-urlencoded".
abbrev pub form_urlencoded : List ℕ
form_urlencoded =
    97 ∷ 112 ∷ 112 ∷ 108 ∷ 105 ∷ 99 ∷ 97 ∷ 116 ∷ 105 ∷ 111 ∷ 110 ∷ 47 ∷ 120 ∷ 45 ∷ 119 ∷ 119 ∷ 119
    ∷ 45 ∷ 102 ∷ 111 ∷ 114 ∷ 109 ∷ 45 ∷ 117 ∷ 114 ∷ 108 ∷ 101 ∷ 110 ∷ 99 ∷ 111 ∷ 100 ∷ 101 ∷ 100
    ∷ []

-- The default delimiters of Trim: " \t\r\n".
abbrev pub blanks : List ℕ
blanks = 32 ∷ 9 ∷ 13 ∷ 10 ∷ []

abbrev pub begins_with : List ℕ → List ℕ → Bool
begins_with [] str = true
begins_with (c ∷ front) [] = false
begins_with (c ∷ front) (d ∷ str) = (c == d) && begins_with front str

-- Whether the needle stands somewhere in the string.
abbrev pub contains : List ℕ → List ℕ → Bool
contains needle [] = begins_with needle []
contains needle (c ∷ str) = begins_with needle (c ∷ str) || contains needle str

-- strcasestr(haystack, needle) != nullptr.
unfoldable pub strcasestr : List ℕ → List ℕ → Bool
unfolding folded
strcasestr haystack needle = contains (folded needle) (folded haystack)

-- A flag's bit is set.
abbrev pub flagged : HttpRequest → ℕ → Bool
flagged r bit = not (bit_and r.parser_param_flag bit == 0)

abbrev pub set_flag : ℕ → HttpRequest → HttpRequest
set_flag bit r = record r { parser_param_flag = bit_or r.parser_param_flag bit }

-- The separators '&' and ';'.
unfoldable pub init_query_param : HttpRequest → Option HttpRequest
init_query_param r =
    if flagged r 1
    then some r
    else (parse_param (λ key. key) 38 r.query r.params >>= λ params.
        some (set_flag 1 (record r { params = params })))

unfoldable pub init_body_param : HttpRequest → Option HttpRequest
unfolding get_header strcasestr
init_body_param r =
    if flagged r 2
    then some r
    else if not (strcasestr (get_header r content_type_name []) form_urlencoded)
    then some (set_flag 2 r)
    else (parse_param (λ key. key) 38 r.body r.params >>= λ params.
        some (set_flag 2 (record r { params = params })))

abbrev pub is_empty : List ℕ → Bool
is_empty [] = true
is_empty (c ∷ str) = false

unfoldable pub init_cookies : HttpRequest → Option HttpRequest
unfolding get_header
init_cookies r =
    if flagged r 4
    then some r
    else if is_empty (get_header r cookie_name [])
    then some (set_flag 4 r)
    else (parse_param (λ key. trim key blanks) 59 (get_header r cookie_name []) r.cookies
        >>= λ cookies. some (set_flag 4 (record r { cookies = cookies })))

-- init(): the connection header decides whether to close.
unfoldable pub init : HttpRequest → HttpRequest
unfolding get_header strcasecmp
init r = if is_empty (get_header r connection_name []) then r else record r {
  close = not (is_same (strcasecmp (get_header r connection_name []) keep_alive));
}
