-- ===== src/Http/Reading.antt =====
-- GetParam of src/http/http.cc: what it returns the second time, after SetParam, and of a printed query.
use phase.Base.{ℕ, ◌≡◌, refl, ap, ◌∙◌, true, Option, some, List, arith}
use phase.Http.Names.{same_name}
use phase.Http.FieldMap.{find, assign, find-assign}
use phase.Http.Ordered.{assign-IsOrdered}
use phase.Http.Message.{◌>>=◌, HttpRequest, value_or, init_query_param, init_body_param, flagged}
use phase.Http.Requests.{init_params, get_param, set_param}
use phase.Http.RequestLaws.{IsValid, init_params-Reads, params_read}

-- The parameters that have been read are not read again.
init_params-again :
    (s : HttpRequest) → flagged s 1 ≡ true → flagged s 2 ≡ true → init_params s ≡ some s
unfolding init_query_param init_body_param
init_params-again s e f =
    let q : init_query_param s ≡ some s = rw (e, init_query_param) refl in
    let b : init_body_param s ≡ some s = rw (f, init_body_param) refl in
    ap (λ o. o >>= init_body_param) q ∙ b

abbrev answered : List ℕ → List ℕ → Option HttpRequest → Option (List ℕ × HttpRequest)
answered key def o = o >>= λ s. some (value_or (find key s.params) def, s)

-- GetParam returns, and a second GetParam of the same key returns the same value and leaves the
-- request as it is.
pub get_param_again :
    (r : HttpRequest) (key def : List ℕ)
    → IsValid r
    → (val : List ℕ) × (s : HttpRequest) × (get_param r key def ≡ some (val, s))
      × (get_param s key def ≡ some (val, s))
unfolding get_param
get_param_again r key def v =
    let (s, e, w, keeps, b, q) = init_params-Reads r v in
    (
      value_or (find key s.params) def,
      s,
      ap (answered key def) e,
      ap (answered key def) (init_params-again s q b),
    )

-- A parameter that SetParam set is what GetParam returns under every name that differs only in the
-- case of its letters, also when the query or the body, parsed later, has another value for it.
pub get_param-set_param :
    (r : HttpRequest) (key val name def : List ℕ)
    → IsValid r
    → same_name name key ≡ true
    → (s : HttpRequest) × (get_param (set_param r key val) name def ≡ some (val, s))
unfolding get_param set_param
get_param-set_param r key val name def v h =
    let valid : IsValid (set_param r key val) =
      params_read r _ _ v (assign-IsOrdered key val r.params v.params_ordered) v.three_bits in
    let (s, e, w, keeps, b, q) = init_params-Reads (set_param r key val) valid in
    let found : find name (assign key val r.params) ≡ some val =
      ground (arith, h, find-assign name key val r.params) in
    (s, ap (answered name def) e ∙ ap (λ o. some (value_or o def, s)) (keeps name val found))
