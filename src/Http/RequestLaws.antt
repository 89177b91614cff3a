-- ===== src/Http/RequestLaws.antt =====
-- The calls of src/http/http.cc on the maps: what they do to the headers, and what every sequence of
-- them keeps.
use phase.Base.{
  ℕ, ◌<◌, ◌≡◌, refl, ap, ◌∙◌, true, Option, some, List, [], arith, if◌then◌else◌, Bool-cases, inl,
  inr,
}
use phase.Utils.Strings.{trim}
use phase.Http.Names.{same_name}
use phase.Http.FieldMap.{MapType, IsOrdered, find-assign}
use phase.Http.Ordered.{find-erase}
use phase.Http.ParamLaws.{parse_param-total, Keeps}
use phase.Http.Flags.{flag_bound, flag_recorded, flag_retained}
use phase.Http.Message.{
  ◌>>=◌, HttpRequest, get_header, init_query_param, init_body_param, init_cookies, flagged,
  set_flag, content_type_name, cookie_name, form_urlencoded, strcasestr, is_empty, blanks,
}
use phase.Http.Requests.{init_params, set_header, del_header}

-- After SetHeader and after DelHeader, GetHeader takes every name that differs only in the case of
-- its letters for the one that was set or deleted, and every other name is as before.
pub header_calls :
    (r : HttpRequest) (key val name def : List ℕ)
    → IsOrdered r.headers
    → (get_header (set_header r key val) name def
        ≡ (if same_name name key then val else get_header r name def))
      × (get_header (del_header r key) name def
          ≡ (if same_name name key then def else get_header r name def))
unfolding get_header set_header del_header
header_calls r key val name def o =
    ground (arith, find-assign name key val r.headers, find-erase name key r.headers o)

-- The three maps are in order, and the flag has three bits.
pub record IsValid (r : HttpRequest) : Type 0 where
  pub headers_ordered : IsOrdered r.headers
  pub params_ordered : IsOrdered r.params
  pub cookies_ordered : IsOrdered r.cookies
  pub three_bits : r.parser_param_flag < 8

-- A call returns, and what it leaves is valid.
abbrev pub Returns : Option HttpRequest → Type 0
Returns o = (s : HttpRequest) × (o ≡ some s) × IsValid s

pub params_read :
    (r : HttpRequest) (n : MapType) (f : ℕ)
    → IsValid r
    → IsOrdered n
    → f < 8
    → IsValid (record r { params = n; parser_param_flag = f })
params_read r n f v o b = record {
  headers_ordered = v.headers_ordered;
  params_ordered = o;
  cookies_ordered = v.cookies_ordered;
  three_bits = b;
}

pub cookies_read :
    (r : HttpRequest) (n : MapType) (f : ℕ)
    → IsValid r
    → IsOrdered n
    → f < 8
    → IsValid (record r { cookies = n; parser_param_flag = f })
cookies_read r n f v o b = record {
  headers_ordered = v.headers_ordered;
  params_ordered = v.params_ordered;
  cookies_ordered = o;
  three_bits = b;
}

-- A call that reads parameters returns, keeps those that are there, and records in the flag that it
-- has been.
abbrev pub Reads : ℕ → HttpRequest → Option HttpRequest → Type 0
Reads bit r o =
    (s : HttpRequest) × (o ≡ some s) × IsValid s × Keeps r.params s.params × (flagged s bit ≡ true)

init_query_param-Reads : (r : HttpRequest) → IsValid r → Reads 1 r (init_query_param r)
unfolding init_query_param
init_query_param-Reads r v = elim (Bool-cases (flagged r 1)) [
  | inl e ↦ (r, rw (e, init_query_param) refl, v, λ key val h. h, e)
  | inr e ↦
      let (n, result, ordered, keeps) =
        parse_param-total (λ key. key) 38 r.query r.params v.params_ordered in
      (
        set_flag 1 (record r { params = n }),
        rw (e, result, init_query_param) refl,
        params_read r n _ v ordered (flag_bound r.parser_param_flag v.three_bits).0,
        keeps,
        (flag_recorded r.parser_param_flag v.three_bits).0,
      )
]

-- The bit of the query, 1, stays set.
init_body_param-Reads :
    (r : HttpRequest)
    → IsValid r
    → flagged r 1 ≡ true
    → (s : HttpRequest) × (init_body_param r ≡ some s)
      × IsValid s
      × Keeps r.params s.params
      × (flagged s 2 ≡ true)
      × (flagged s 1 ≡ true)
unfolding init_body_param
init_body_param-Reads r v q = elim (Bool-cases (flagged r 2)) [
  | inl e ↦ (r, rw (e, init_body_param) refl, v, λ key val h. h, e, q)
  | inr e ↦ elim (Bool-cases (strcasestr (get_header r content_type_name []) form_urlencoded)) [
    | inr f ↦ (
      set_flag 2 r,
      rw (e, f, init_body_param) refl,
      params_read r r.params _ v v.params_ordered (flag_bound r.parser_param_flag v.three_bits).1,
      λ key val h. h,
      (flag_recorded r.parser_param_flag v.three_bits).1,
      flag_retained r.parser_param_flag v.three_bits q,
    )
    | inl f ↦
        let (n, result, ordered, keeps) =
          parse_param-total (λ key. key) 38 r.body r.params v.params_ordered in
        (
          set_flag 2 (record r { params = n }),
          rw (e, f, result, init_body_param) refl,
          params_read r n _ v ordered (flag_bound r.parser_param_flag v.three_bits).1,
          keeps,
          (flag_recorded r.parser_param_flag v.three_bits).1,
          flag_retained r.parser_param_flag v.three_bits q,
        )
  ]
]

pub init_cookies-Returns : (r : HttpRequest) → IsValid r → Returns (init_cookies r)
unfolding init_cookies
init_cookies-Returns r v = elim (Bool-cases (flagged r 4)) [
  | inl e ↦ (r, rw (e, init_cookies) refl, v)
  | inr e ↦ elim (Bool-cases (is_empty (get_header r cookie_name []))) [
    | inl f ↦ (
      set_flag 4 r,
      rw (e, f, init_cookies) refl,
      cookies_read r r.cookies _ v v.cookies_ordered
          (flag_bound r.parser_param_flag v.three_bits).2,
    )
    | inr f ↦
        let (n, result, ordered, _) =
          parse_param-total (λ key. trim key blanks) 59 (get_header r cookie_name []) r.cookies
            v.cookies_ordered in
        (
          set_flag 4 (record r { cookies = n }),
          rw (e, f, result, init_cookies) refl,
          cookies_read r n _ v ordered (flag_bound r.parser_param_flag v.three_bits).2,
        )
  ]
]

-- Both are read, in this order.
pub init_params-Reads :
    (r : HttpRequest)
    → IsValid r
    → (s : HttpRequest) × (init_params r ≡ some s)
      × IsValid s
      × Keeps r.params s.params
      × (flagged s 2 ≡ true)
      × (flagged s 1 ≡ true)
init_params-Reads r v =
    let (s, e, w, keeps, q) = init_query_param-Reads r v in
    let (t, f, x, also, b, p) = init_body_param-Reads s w q in
    (t, ap (λ o. o >>= init_body_param) e ∙ f, x, λ key val h. also key val (keeps key val h), b, p)

pub init_params-Returns : (r : HttpRequest) → IsValid r → Returns (init_params r)
init_params-Returns r v = let (s, e, w, _, _, _) = init_params-Reads r v in (s, e, w)
