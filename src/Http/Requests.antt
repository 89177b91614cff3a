-- ===== src/Http/Requests.antt =====
-- The calls of HttpRequest and HttpResponse in src/http/http.cc that read and change the maps.
use phase.Base.{ℕ, Bool, not, Option, some, List, [], ◌∷◌, ◌++◌, ltb, if◌then◌else◌}
use phase.Http.FieldMap.{find, assign, erase}
use phase.Http.Message.{
  ◌>>=◌, HttpRequest, HttpResponse, value_or, init_query_param, init_body_param, init_cookies,
  status_found, is_empty,
}

-- The parameters of the query and of the body.
abbrev pub init_params : HttpRequest → Option HttpRequest
init_params r = init_query_param r >>= init_body_param

-- The value is returned with the request, which the call may have changed.
unfoldable pub get_param : HttpRequest → List ℕ → List ℕ → Option (List ℕ × HttpRequest)
get_param r key def = init_params r >>= λ s. some (value_or (find key s.params) def, s)

unfoldable pub get_cookie : HttpRequest → List ℕ → List ℕ → Option (List ℕ × HttpRequest)
get_cookie r key def = init_cookies r >>= λ s. some (value_or (find key s.cookies) def, s)

unfoldable pub set_header : HttpRequest → List ℕ → List ℕ → HttpRequest
set_header r key val = record r { headers = assign key val r.headers }

unfoldable pub set_param : HttpRequest → List ℕ → List ℕ → HttpRequest
set_param r key val = record r { params = assign key val r.params }

unfoldable pub set_cookie : HttpRequest → List ℕ → List ℕ → HttpRequest
set_cookie r key val = record r { cookies = assign key val r.cookies }

unfoldable pub del_header : HttpRequest → List ℕ → HttpRequest
del_header r key = record r { headers = erase key r.headers }

unfoldable pub del_param : HttpRequest → List ℕ → HttpRequest
del_param r key = record r { params = erase key r.params }

unfoldable pub del_cookie : HttpRequest → List ℕ → HttpRequest
del_cookie r key = record r { cookies = erase key r.cookies }

-- What `has…` answers: whether the key is there, and what `*val` becomes then.
unfoldable pub has_header : HttpRequest → List ℕ → Option (List ℕ)
has_header r key = find key r.headers

unfoldable pub has_param : HttpRequest → List ℕ → Option (Option (List ℕ) × HttpRequest)
has_param r key = init_params r >>= λ s. some (find key s.params, s)

unfoldable pub has_cookie : HttpRequest → List ℕ → Option (Option (List ℕ) × HttpRequest)
has_cookie r key = init_cookies r >>= λ s. some (find key s.cookies, s)

unfoldable pub response_get_header : HttpResponse → List ℕ → List ℕ → List ℕ
response_get_header r key def = value_or (find key r.headers) def

unfoldable pub response_set_header : HttpResponse → List ℕ → List ℕ → HttpResponse
response_set_header r key val = record r { headers = assign key val r.headers }

unfoldable pub response_del_header : HttpResponse → List ℕ → HttpResponse
response_del_header r key = record r { headers = erase key r.headers }

-- "Location".
abbrev pub location_name : List ℕ
location_name = 76 ∷ 111 ∷ 99 ∷ 97 ∷ 116 ∷ 105 ∷ 111 ∷ 110 ∷ []

unfoldable pub set_redirect : HttpResponse → List ℕ → HttpResponse
unfolding response_set_header
set_redirect r uri = response_set_header (record r { status = status_found }) location_name uri

-- ";expires=", " GMT", ";domain=", ";path=" and ";secure".
abbrev pub expires_text : List ℕ
expires_text = 59 ∷ 101 ∷ 120 ∷ 112 ∷ 105 ∷ 114 ∷ 101 ∷ 115 ∷ 61 ∷ []

abbrev pub gmt_text : List ℕ
gmt_text = 32 ∷ 71 ∷ 77 ∷ 84 ∷ []

abbrev pub domain_text : List ℕ
domain_text = 59 ∷ 100 ∷ 111 ∷ 109 ∷ 97 ∷ 105 ∷ 110 ∷ 61 ∷ []

abbrev pub path_text : List ℕ
path_text = 59 ∷ 112 ∷ 97 ∷ 116 ∷ 104 ∷ 61 ∷ []

abbrev pub secure_text : List ℕ
secure_text = 59 ∷ 115 ∷ 101 ∷ 99 ∷ 117 ∷ 114 ∷ 101 ∷ []

-- The text of a cookie; `time2str` is Time2Str at the format of the code, and an `expired` of 0
-- stands for every time that is not positive.
unfoldable pub cookie_text : (ℕ → List ℕ) → List ℕ → List ℕ → ℕ → List ℕ → List ℕ → Bool → List ℕ
cookie_text time2str key val expired path domain secure =
    key
    ++ 61 ∷ val
    ++ (if ltb 0 expired then expires_text ++ time2str expired ++ gmt_text else [])
    ++ (if not (is_empty domain) then domain_text ++ domain else [])
    ++ (if not (is_empty path) then path_text ++ path else [])
    ++ (if secure then secure_text else [])

unfoldable pub response_set_cookie :
    (ℕ → List ℕ) → HttpResponse → List ℕ → List ℕ → ℕ → List ℕ → List ℕ → Bool → HttpResponse
unfolding cookie_text
response_set_cookie time2str r key val expired path domain secure = record r {
  cookies = r.cookies ++ cookie_text time2str key val expired path domain secure ∷ [];
}
