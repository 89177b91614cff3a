-- ===== src/Http/ResponseLaws.antt =====
-- The fields that HttpResponse::dump of src/http/http.cc prints.
use phase.Base.{
  ℕ, ◌≡◌, refl, ap, sym, ◌∙◌, true, false, not, List, [], ◌∷◌, ◌++◌, arith, length, if◌then◌else◌,
  append_assoc, append-nil,
}
use phase.Http.Names.{strcasecmp, compare, folded, c_str, tolower}
use phase.Http.FieldMap.{MapType}
use phase.Http.Message.{HttpResponse, is_empty, connection_name}
use phase.Http.Dump.{
  decimal, crlf, field_line, content_length_name, set_cookie_name, close_or_keep, status_line,
  named, header_lines, response_skips, connection_line, body_part, cookie_lines, dump_response,
}
use phase.Http.DumpLaws.{
  values, kept, lines, lines-append, header_lines-kept, values-append, values-kept, named_alike,
}

abbrev cookie_fields : List (List ℕ) → MapType
cookie_fields [] = []
cookie_fields (c ∷ cookies) = (set_cookie_name, c) ∷ cookie_fields cookies

cookie_lines_lem : (cookies : List (List ℕ)) → cookie_lines cookies ≡ lines (cookie_fields cookies)
unfolding cookie_lines
cookie_lines_lem [] = refl
cookie_lines_lem (c ∷ cookies) =
    ap (λ z. field_line set_cookie_name c ++ z) (cookie_lines_lem cookies)

-- A name that no cookie's line has.
cookie_values :
    (name : List ℕ) (cookies : List (List ℕ))
    → named set_cookie_name name ≡ false
    → values name (cookie_fields cookies) ≡ []
cookie_values name [] h = refl
cookie_values name (c ∷ cookies) h = rw h (cookie_values name cookies h)

-- The fields of a response with a body that is no websocket's.
unfoldable pub response_fields : HttpResponse → MapType
unfolding decimal named
response_fields r =
    kept (response_skips r) r.headers
    ++ (cookie_fields r.cookies
        ++ ((connection_name, close_or_keep r.close)
            ∷ (content_length_name, decimal (length r.body))
            ∷ []))

glued :
    (a h k c f e b : List ℕ)
    → a ++ h ++ k ++ c ++ (f ++ e ++ b) ≡ a ++ (h ++ (k ++ (c ++ (f ++ [])))) ++ e ++ b
glued a h k c f e b = simp (append_assoc, append-nil)

framed :
    (a b : List ℕ) (m n : MapType) (x y : List ℕ × List ℕ) (h k : List ℕ)
    → h ≡ lines m
    → k ≡ lines n
    → a ++ h ++ k ++ field_line x.0 x.1 ++ (field_line y.0 y.1 ++ crlf ++ b)
      ≡ a ++ lines (m ++ (n ++ (x ∷ y ∷ []))) ++ crlf ++ b
framed a b m n x y h k e f =
    ap (λ z. a ++ z ++ k ++ field_line x.0 x.1 ++ (field_line y.0 y.1 ++ crlf ++ b)) e
    ∙ ap (λ z. a ++ lines m ++ z ++ field_line x.0 x.1 ++ (field_line y.0 y.1 ++ crlf ++ b)) f
    ∙ glued a (lines m) (lines n) (field_line x.0 x.1) (field_line y.0 y.1) crlf b
    ∙ ap (λ z. a ++ (lines m ++ z) ++ crlf ++ b) (sym (lines-append n (x ∷ y ∷ [])))
    ∙ ap (λ z. a ++ z ++ crlf ++ b) (sym (lines-append m (n ++ (x ∷ y ∷ []))))

skips_alike :
    (r : HttpResponse) (name k : List ℕ)
    → named k name ≡ true
    → response_skips r k ≡ response_skips r name
skips_alike r name k h = ground (arith, named_alike k name connection_name h)

names_apart :
    (named set_cookie_name connection_name ≡ false)
    × (named set_cookie_name content_length_name ≡ false)
    × (named connection_name content_length_name ≡ false)
    × (named content_length_name connection_name ≡ false)
    × (named connection_name connection_name ≡ true)
    × (named content_length_name content_length_name ≡ true)
unfolding named strcasecmp compare folded c_str tolower
names_apart = (refl, refl, refl, refl, refl, refl)

-- The values among a response's fields of a name that no cookie's line has.
values-response_fields :
    (r : HttpResponse) (name : List ℕ)
    → named set_cookie_name name ≡ false
    → values name (response_fields r)
      ≡ (if response_skips r name then [] else values name r.headers)
        ++ values name (
            (connection_name, close_or_keep r.close)
            ∷ (content_length_name, decimal (length r.body))
            ∷ [])
unfolding response_fields
values-response_fields r name h =
    values-append name (kept (response_skips r) r.headers) _
    ∙ ap (λ z. values name (kept (response_skips r) r.headers) ++ z)
        (values-append name (cookie_fields r.cookies) _
          ∙ ap
              (λ z.
                z
                ++ values name (
                    (connection_name, close_or_keep r.close)
                    ∷ (content_length_name, decimal (length r.body))
                    ∷ []))
              (cookie_values name r.cookies h))
    ∙ ap
        (λ z.
          z
          ++ values name (
              (connection_name, close_or_keep r.close)
              ∷ (content_length_name, decimal (length r.body))
              ∷ []))
        (values-kept (response_skips r) name r.headers (skips_alike r name))

-- A response with a body, of no websocket, is printed as its first line, its fields, an empty line
-- and the body. Among the fields one is named connection, in any case of the letters, and says what
-- `close` says; but beside the content-length of the body stand all that were set as headers.
pub dump_response_fields :
    (status_text : ℕ → List ℕ) (r : HttpResponse)
    → r.websocket ≡ false
    → is_empty r.body ≡ false
    → (dump_response status_text r
        ≡ status_line status_text r ++ lines (response_fields r) ++ crlf ++ r.body)
      × (values connection_name (response_fields r) ≡ close_or_keep r.close ∷ [])
      × (values content_length_name (response_fields r)
          ≡ values content_length_name r.headers ++ decimal (length r.body) ∷ [])
unfolding dump_response
dump_response_fields status_text r w b =
    let (a, c, d, e, f, g) = names_apart in
    (
      unfold response_fields in
          ap
            (λ z.
              status_line status_text r
              ++ header_lines (response_skips r) r.headers
              ++ cookie_lines r.cookies
              ++ connection_line z r.close
              ++ body_part r.body)
            w
          ∙ ap
              (λ z.
                status_line status_text r
                ++ header_lines (response_skips r) r.headers
                ++ cookie_lines r.cookies
                ++ field_line connection_name (close_or_keep r.close)
                ++ (if not z
                    then field_line content_length_name (decimal (length r.body)) ++ crlf ++ r.body
                    else crlf))
              b
          ∙ framed (status_line status_text r) r.body (kept (response_skips r) r.headers)
              (cookie_fields r.cookies) (connection_name, close_or_keep r.close)
              (content_length_name, decimal (length r.body))
              (header_lines (response_skips r) r.headers) (cookie_lines r.cookies)
              (header_lines-kept (response_skips r) r.headers) (cookie_lines_lem r.cookies),
      values-response_fields r connection_name a ∙ ground (arith, w, e, f),
      values-response_fields r content_length_name c ∙ ground (arith, w, d, e, g),
    )
