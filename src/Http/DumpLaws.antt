-- ===== src/Http/DumpLaws.antt =====
-- The fields that `dump` of src/http/http.cc prints, and the numbers it prints.
use phase.Base.{
  ℕ, ◌≡◌, refl, ap, sym, ◌∙◌, Bool, true, false, not, ◌&&◌, ◌||◌, List, [], ◌∷◌, ◌++◌, arith,
  length, if◌then◌else◌, Bool-cases, inl, inr, append_assoc, append-nil, ◌↔◌,
}
use phase.Http.Names.{
  Sign, less, same, greater, is_same, strcasecmp, compare, compare_self, compare_same, folded,
  c_str, tolower,
}
use phase.Http.FieldMap.{MapType}
use phase.Http.Message.{HttpRequest, is_empty, connection_name}
use phase.Http.Dump.{
  decimal, crlf, field_line, content_length_name, close_or_keep, request_line, named, header_lines,
  request_skips, connection_line, body_part, dump_request,
}

-- The values of the fields with a name.
abbrev pub values : List ℕ → MapType → List (List ℕ)
values name [] = []
values name ((k, v) ∷ fields) = if named k name then v ∷ values name fields else values name fields

abbrev pub kept : (List ℕ → Bool) → MapType → MapType
kept skips [] = []
kept skips ((k, v) ∷ m) = if skips k then kept skips m else (k, v) ∷ kept skips m

-- The lines of some fields.
abbrev pub lines : MapType → List ℕ
lines [] = []
lines ((k, v) ∷ fields) = field_line k v ++ lines fields

pub lines-append : (a b : MapType) → lines (a ++ b) ≡ lines a ++ lines b
lines-append [] b = refl
lines-append ((k, v) ∷ a) b =
    ap (λ z. field_line k v ++ z) (lines-append a b)
    ∙ sym (append_assoc (field_line k v) (lines a) (lines b))

pub header_lines-kept :
    (skips : List ℕ → Bool) (m : MapType) → header_lines skips m ≡ lines (kept skips m)
unfolding header_lines
header_lines-kept skips [] = refl
header_lines-kept skips ((k, v) ∷ m) = elim (Bool-cases (skips k)) [
  | inl e ↦ rw (e, header_lines) (header_lines-kept skips m)
  | inr e ↦ rw (e, header_lines) (ap (λ z. field_line k v ++ z) (header_lines-kept skips m))
]

pub values-append :
    (name : List ℕ) (a b : MapType) → values name (a ++ b) ≡ values name a ++ values name b
values-append name [] b = refl
values-append name ((k, v) ∷ a) b = elim (Bool-cases (named k name)) [
  | inl e ↦ rw e (ap (λ z. v ∷ z) (values-append name a b))
  | inr e ↦ rw e (values-append name a b)
]

same_sign : (s : Sign) → is_same s ≡ true → s ≡ same
same_sign less h = cc
same_sign same h = refl
same_sign greater h = cc

is_same_iff : (a b : List ℕ) → (named a b ≡ true) ↔ (folded a ≡ folded b)
unfolding named strcasecmp
is_same_iff a b = (
  λ h. compare_same (folded a) (folded b) (same_sign (strcasecmp a b) h),
  λ e. ap (λ z. is_same (compare z (folded b))) e ∙ ap is_same (compare_self (folded b)),
)

pub named-sym : (a b : List ℕ) → named a b ≡ named b a
named-sym a b = ground (arith, is_same_iff a b, is_same_iff b a)

-- Names that are the same are the same as any other.
pub named_alike : (a b c : List ℕ) → named a b ≡ true → named a c ≡ named b c
unfolding named strcasecmp
named_alike a b c h = ap (λ z. is_same (compare z (folded c))) ((is_same_iff a b).0 h)

-- With a test that takes names that are the same alike, either all fields of a name are kept or none.
pub values-kept :
    (skips : List ℕ → Bool) (name : List ℕ) (m : MapType)
    → ((k : List ℕ) → named k name ≡ true → skips k ≡ skips name)
    → values name (kept skips m) ≡ (if skips name then [] else values name m)
values-kept skips name [] h = ground arith
values-kept skips name ((k, v) ∷ m) h = ground (arith, h k, values-kept skips name m h)

-- The fields of a request with a body that is no websocket's.
unfoldable pub request_fields : HttpRequest → MapType
unfolding decimal named
request_fields r =
    ((connection_name, close_or_keep r.close) ∷ [])
    ++ (kept (request_skips r) r.headers ++ (content_length_name, decimal (length r.body)) ∷ [])

different : named content_length_name connection_name ≡ false
unfolding named strcasecmp compare folded c_str tolower
different = refl

apart_names :
    (name : List ℕ) → named connection_name name ≡ true → named content_length_name name ≡ false
apart_names name h = elim (Bool-cases (named content_length_name name)) [
  | inr e ↦ e
  | inl e ↦ absurd (
      ground (
        arith,
        different,
        named_alike content_length_name name connection_name e,
        named-sym name connection_name,
        h,
      ))
]

glued :
    (a c h f e b : List ℕ) → a ++ c ++ h ++ (f ++ e ++ b) ≡ a ++ (c ++ (h ++ (f ++ []))) ++ e ++ b
glued a c h f e b = simp (append_assoc, append-nil)

-- The fields between a first one and a last one.
framed :
    (a b : List ℕ) (x y : List ℕ × List ℕ) (m : MapType) (h : List ℕ)
    → h ≡ lines m
    → a ++ field_line x.0 x.1 ++ h ++ (field_line y.0 y.1 ++ crlf ++ b)
      ≡ a ++ lines ((x ∷ []) ++ (m ++ y ∷ [])) ++ crlf ++ b
framed a b x y m h e =
    ap (λ z. a ++ field_line x.0 x.1 ++ z ++ (field_line y.0 y.1 ++ crlf ++ b)) e
    ∙ glued a (field_line x.0 x.1) (lines m) (field_line y.0 y.1) crlf b
    ∙ ap (λ z. a ++ (field_line x.0 x.1 ++ z) ++ crlf ++ b) (sym (lines-append m (y ∷ [])))

skips_alike :
    (r : HttpRequest) (name k : List ℕ)
    → named k name ≡ true
    → request_skips r k ≡ request_skips r name
skips_alike r name k h =
    ground (arith, named_alike k name connection_name h, named_alike k name content_length_name h)

skipped :
    (r : HttpRequest) (name : List ℕ)
    → r.websocket ≡ false
    → is_empty r.body ≡ false
    → request_skips r name ≡ (named connection_name name || named content_length_name name)
skipped r name w b =
    ap
      (λ z.
        (not z && named name connection_name)
        || (not (is_empty r.body) && named name content_length_name))
      w
    ∙ ap (λ z. named name connection_name || (not z && named name content_length_name)) b
    ∙ ap (λ z. z || named name content_length_name) (named-sym name connection_name)
    ∙ ap (λ z. named connection_name name || z) (named-sym name content_length_name)

merged :
    (a b : Bool) (x y : List ℕ) (kept_values : List (List ℕ))
    → (a ≡ true → b ≡ false)
    → (if a
        then x ∷ ((if a || b then [] else kept_values) ++ (if b then y ∷ [] else []))
        else (if a || b then [] else kept_values) ++ (if b then y ∷ [] else []))
      ≡ (if a then x ∷ [] else if b then y ∷ [] else kept_values)
merged true true x y kept_values h = absurd (ground (arith, h refl))
merged true false x y kept_values h = refl
merged false true x y kept_values h = refl
merged false false x y kept_values h = append-nil kept_values

-- A request with a body, of no websocket, is printed as its first line, its fields, an empty line and
-- the body. Among the fields, whatever headers were set, one is named connection, in any case of the
-- letters, and says what `close` says; one is named content-length and is the body's length; and
-- under any other name stand the values of the headers.
pub dump_request_fields :
    (method_text : ℕ → List ℕ) (r : HttpRequest) (name : List ℕ)
    → r.websocket ≡ false
    → is_empty r.body ≡ false
    → (dump_request method_text r
        ≡ request_line method_text r ++ lines (request_fields r) ++ crlf ++ r.body)
      × (values name (request_fields r) ≡ (
          if named connection_name name
          then close_or_keep r.close ∷ []
          else if named content_length_name name
          then decimal (length r.body) ∷ []
          else values name r.headers))
unfolding dump_request request_fields
dump_request_fields method_text r name w b = (
  ap
        (λ z.
          request_line method_text r
          ++ connection_line z r.close
          ++ header_lines (request_skips r) r.headers
          ++ body_part r.body)
        w
      ∙ ap
          (λ z.
            request_line method_text r
            ++ field_line connection_name (close_or_keep r.close)
            ++ header_lines (request_skips r) r.headers
            ++ (if not z
                then field_line content_length_name (decimal (length r.body)) ++ crlf ++ r.body
                else crlf))
          b
      ∙ framed (request_line method_text r) r.body (connection_name, close_or_keep r.close)
          (content_length_name, decimal (length r.body)) (kept (request_skips r) r.headers)
          (header_lines (request_skips r) r.headers)
          (header_lines-kept (request_skips r) r.headers),
  ap (λ z. if named connection_name name then close_or_keep r.close ∷ z else z)
        (values-append name (kept (request_skips r) r.headers)
            ((content_length_name, decimal (length r.body)) ∷ [])
          ∙ ap
              (λ z.
                z ++ (if named content_length_name name then decimal (length r.body) ∷ [] else []))
              (values-kept (request_skips r) name r.headers (skips_alike r name)
                ∙ ap (λ z. if z then [] else values name r.headers) (skipped r name w b)))
      ∙ merged (named connection_name name) (named content_length_name name) _ _ _
          (apart_names name),
)
