-- ===== src/Http/Dump.antt =====
-- `dump` of HttpRequest and of HttpResponse in src/http/http.cc, into a string of bytes. The texts of
-- methods and statuses are arguments.
use phase.Base.{
  ℕ, zero, suc, ◌+◌, ◌/◌, ◌%◌, Bool, not, ◌&&◌, ◌||◌, List, [], ◌∷◌, ◌++◌, length, reverse, ltb,
  if◌then◌else◌,
}
use phase.Http.Names.{is_same, strcasecmp}
use phase.Http.FieldMap.{MapType}
use phase.Http.Message.{HttpRequest, HttpResponse, is_empty, connection_name, keep_alive}

-- The decimal digits of `n`, the last first.
abbrev pub digits_back : ℕ → ℕ → List ℕ
digits_back zero n = []
digits_back (suc fuel) n =
    let rest = digits_back fuel (n / 10) in if ltb n 10 then (48 + n) ∷ [] else (48 + n % 10) ∷ rest

-- `os << n`: a number has at most as many digits as its value and one more.
unfoldable pub decimal : ℕ → List ℕ
decimal n = reverse (digits_back (suc n) n)

-- "\r\n" and ": ".
abbrev pub crlf : List ℕ
crlf = 13 ∷ 10 ∷ []

abbrev pub colon : List ℕ
colon = 58 ∷ 32 ∷ []

-- " HTTP/" and "HTTP/".
abbrev pub http_slash : List ℕ
http_slash = 72 ∷ 84 ∷ 84 ∷ 80 ∷ 47 ∷ []

-- "close".
abbrev pub close_text : List ℕ
close_text = 99 ∷ 108 ∷ 111 ∷ 115 ∷ 101 ∷ []

-- "content-length".
abbrev pub content_length_name : List ℕ
content_length_name =
    99 ∷ 111 ∷ 110 ∷ 116 ∷ 101 ∷ 110 ∷ 116 ∷ 45 ∷ 108 ∷ 101 ∷ 110 ∷ 103 ∷ 116 ∷ 104 ∷ []

-- "Set-Cookie".
abbrev pub set_cookie_name : List ℕ
set_cookie_name = 83 ∷ 101 ∷ 116 ∷ 45 ∷ 67 ∷ 111 ∷ 111 ∷ 107 ∷ 105 ∷ 101 ∷ []

-- A field's line: its name, ": ", its value and the line's end.
abbrev pub field_line : List ℕ → List ℕ → List ℕ
field_line name value = name ++ colon ++ value ++ crlf

-- The version: its high half, a point, and its low half.
unfoldable pub version_text : ℕ → List ℕ
unfolding decimal
version_text version = http_slash ++ decimal (version / 16) ++ 46 ∷ decimal (version % 16)

-- The value of the connection line.
abbrev pub close_or_keep : Bool → List ℕ
close_or_keep close = if close then close_text else keep_alive

abbrev pub marked : ℕ → List ℕ → List ℕ
marked mark text = if is_empty text then [] else mark ∷ text

unfoldable pub request_line : (ℕ → List ℕ) → HttpRequest → List ℕ
unfolding version_text
request_line method_text r =
    method_text r.method
    ++ 32 ∷ r.path
    ++ marked 63 r.query
    ++ marked 35 r.fragment
    ++ 32 ∷ version_text r.version
    ++ crlf

unfoldable pub status_line : (ℕ → List ℕ) → HttpResponse → List ℕ
unfolding version_text
status_line status_text r =
    version_text r.version
    ++ 32 ∷ decimal r.status
    ++ 32 ∷ (if is_empty r.reason then status_text r.status else r.reason)
    ++ crlf

-- `strcasecmp(key, name) == 0`.
unfoldable pub named : List ℕ → List ℕ → Bool
unfolding strcasecmp
named key name = is_same (strcasecmp key name)

-- The loop over the headers; those that pass the test are left out.
unfoldable pub header_lines : (List ℕ → Bool) → MapType → List ℕ
header_lines skips [] = []
header_lines skips ((k, v) ∷ m) =
    let rest = header_lines skips m in if skips k then rest else field_line k v ++ rest

abbrev pub request_skips : HttpRequest → List ℕ → Bool
request_skips r key =
    (not r.websocket && named key connection_name)
    || (not (is_empty r.body) && named key content_length_name)

abbrev pub response_skips : HttpResponse → List ℕ → Bool
response_skips r key = not r.websocket && named key connection_name

abbrev pub connection_line : Bool → Bool → List ℕ
connection_line websocket close =
    if not websocket then field_line connection_name (close_or_keep close) else []

abbrev pub body_part : List ℕ → List ℕ
body_part body =
    if not (is_empty body)
    then field_line content_length_name (decimal (length body)) ++ crlf ++ body
    else crlf

unfoldable pub cookie_lines : List (List ℕ) → List ℕ
cookie_lines [] = []
cookie_lines (c ∷ cookies) = field_line set_cookie_name c ++ cookie_lines cookies

unfoldable pub dump_request : (ℕ → List ℕ) → HttpRequest → List ℕ
unfolding request_line header_lines named decimal
dump_request method_text r =
    request_line method_text r
    ++ connection_line r.websocket r.close
    ++ header_lines (request_skips r) r.headers
    ++ body_part r.body

unfoldable pub dump_response : (ℕ → List ℕ) → HttpResponse → List ℕ
unfolding status_line header_lines named decimal cookie_lines
dump_response status_text r =
    status_line status_text r
    ++ header_lines (response_skips r) r.headers
    ++ cookie_lines r.cookies
    ++ connection_line r.websocket r.close
    ++ body_part r.body
