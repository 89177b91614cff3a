-- ===== src/Http/Calls.antt =====
-- Sequences of the calls of HttpRequest in src/http/http.cc: they all return, and keep the maps in
-- order.
use phase.Base.{
  ℕ, ◌≡◌, refl, sym, subst, Bool, Option, some, List, [], ◌∷◌, arith, Bool-cases, inl, inr,
}
use phase.Http.FieldMap.{MapType, IsOrdered}
use phase.Http.Ordered.{assign-IsOrdered, erase-IsOrdered}
use phase.Http.Message.{
  ◌>>=◌, HttpRequest, new_request, get_header, init_cookies, init, connection_name, is_empty,
}
use phase.Http.Requests.{
  init_params, get_param, get_cookie, set_header, set_param, set_cookie, del_header, del_param,
  del_cookie, has_param, has_cookie,
}
use phase.Http.RequestLaws.{
  IsValid, Returns, params_read, cookies_read, init_params-Returns, init_cookies-Returns,
}

-- The calls that may change the request's maps, and setQuery and setBody, whose texts they parse.
pub data Call : Type 0 where
  header_set param_set cookie_set : List ℕ → List ℕ → Call
  header_deleted param_deleted cookie_deleted : List ℕ → Call
  param_got cookie_got : List ℕ → List ℕ → Call
  param_asked cookie_asked : List ℕ → Call
  query_set body_set : List ℕ → Call
  initialized : Call

abbrev pub left_over {ℓ} : {A : Type ℓ} → A × HttpRequest → HttpRequest
left_over answer = answer.1

abbrev pub run : Call → HttpRequest → Option HttpRequest
run (header_set key val) r = some (set_header r key val)
run (param_set key val) r = some (set_param r key val)
run (cookie_set key val) r = some (set_cookie r key val)
run (header_deleted key) r = some (del_header r key)
run (param_deleted key) r = some (del_param r key)
run (cookie_deleted key) r = some (del_cookie r key)
run (param_got key def) r = get_param r key def >>= λ a. some (left_over a)
run (cookie_got key def) r = get_cookie r key def >>= λ a. some (left_over a)
run (param_asked key) r = has_param r key >>= λ a. some (left_over a)
run (cookie_asked key) r = has_cookie r key >>= λ a. some (left_over a)
run (query_set query) r = some (record r { query = query })
run (body_set body) r = some (record r { body = body })
run initialized r = some (init r)

abbrev pub run_all : List Call → HttpRequest → Option HttpRequest
run_all [] r = some r
run_all (c ∷ calls) r = run c r >>= run_all calls

headers_changed :
    (r : HttpRequest) (n : MapType) → IsValid r → IsOrdered n → IsValid (record r { headers = n })
headers_changed r n v o = record {
  headers_ordered = o;
  params_ordered = v.params_ordered;
  cookies_ordered = v.cookies_ordered;
  three_bits = v.three_bits;
}

text_changed :
    (r : HttpRequest) (query body : List ℕ)
    → IsValid r
    → IsValid (record r { query = query; body = body })
text_changed r query body v = record {
  headers_ordered = v.headers_ordered;
  params_ordered = v.params_ordered;
  cookies_ordered = v.cookies_ordered;
  three_bits = v.three_bits;
}

close_changed : (r : HttpRequest) (close : Bool) → IsValid r → IsValid (record r { close = close })
close_changed r close v = record {
  headers_ordered = v.headers_ordered;
  params_ordered = v.params_ordered;
  cookies_ordered = v.cookies_ordered;
  three_bits = v.three_bits;
}

init-IsValid : (r : HttpRequest) → IsValid r → IsValid (init r)
unfolding init
init-IsValid r v = elim (Bool-cases (is_empty (get_header r connection_name []))) [
  | inl e ↦ rw (e, init) v
  | inr e ↦ rw (e, init) (close_changed r _ v)
]

-- A call that reads parameters or cookies leaves what it read.
read_then :
    (o : Option HttpRequest) {A : Type 0} (answer : HttpRequest → A)
    → Returns o
    → Returns ((o >>= λ s. some (answer s, s)) >>= λ a. some (left_over a))
read_then o answer (s, e, v) =
    subst (λ p. Returns ((p >>= λ s. some (answer s, s)) >>= λ a. some (left_over a))) (sym e)
      (s, refl, v)

run-Returns : (c : Call) (r : HttpRequest) → IsValid r → Returns (run c r)
unfolding set_header set_param set_cookie del_header del_param del_cookie get_param get_cookie
    has_param has_cookie
run-Returns (header_set key val) r v = (
  set_header r key val,
  refl,
  headers_changed r _ v (assign-IsOrdered key val r.headers v.headers_ordered),
)
run-Returns (param_set key val) r v = (
  set_param r key val,
  refl,
  params_read r _ _ v (assign-IsOrdered key val r.params v.params_ordered) v.three_bits,
)
run-Returns (cookie_set key val) r v = (
  set_cookie r key val,
  refl,
  cookies_read r _ _ v (assign-IsOrdered key val r.cookies v.cookies_ordered) v.three_bits,
)
run-Returns (header_deleted key) r v = (
  del_header r key,
  refl,
  headers_changed r _ v (erase-IsOrdered key r.headers v.headers_ordered),
)
run-Returns (param_deleted key) r v = (
  del_param r key,
  refl,
  params_read r _ _ v (erase-IsOrdered key r.params v.params_ordered) v.three_bits,
)
run-Returns (cookie_deleted key) r v = (
  del_cookie r key,
  refl,
  cookies_read r _ _ v (erase-IsOrdered key r.cookies v.cookies_ordered) v.three_bits,
)
run-Returns (param_got key def) r v = read_then (init_params r) _ (init_params-Returns r v)
run-Returns (cookie_got key def) r v = read_then (init_cookies r) _ (init_cookies-Returns r v)
run-Returns (param_asked key) r v = read_then (init_params r) _ (init_params-Returns r v)
run-Returns (cookie_asked key) r v = read_then (init_cookies r) _ (init_cookies-Returns r v)
run-Returns (query_set query) r v =
    (record r { query = query }, refl, text_changed r query r.body v)
run-Returns (body_set body) r v = (record r { body = body }, refl, text_changed r r.query body v)
run-Returns initialized r v = (init r, refl, init-IsValid r v)

run_all-Returns : (calls : List Call) (r : HttpRequest) → IsValid r → Returns (run_all calls r)
run_all-Returns [] r v = (r, refl, v)
run_all-Returns (c ∷ calls) r v =
    let (s, e, w) = run-Returns c r v in
    subst (λ o. Returns (o >>= run_all calls)) (sym e) (run_all-Returns calls s w)

-- Every sequence of calls on a new request returns, those that parse a query, a body or cookies included,
-- whatever texts setQuery, setBody and setHeader put there before. It leaves the maps in order, so that
-- no two of their entries are for the same name.
pub calls_return :
    (version : ℕ) (close : Bool) (calls : List Call)
    → (s : HttpRequest) × (run_all calls (new_request version close) ≡ some s) × IsValid s
unfolding new_request
calls_return version close calls = run_all-Returns calls (new_request version close) record {
  headers_ordered = tt;
  params_ordered = tt;
  cookies_ordered = tt;
  three_bits = omega arith;
}
