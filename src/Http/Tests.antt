-- ===== src/Http/Tests.antt =====
-- Runs of the code of src/http on concrete messages, and the theorems applied to them.
use phase.Base.{ℕ, ◌≡◌, refl, true, false, some, List, [], ◌∷◌, ◌++◌, arith, length, if◌then◌else◌}
use phase.Utils.Url.{unreserved, escape, isxdigit, url_encode, url_decode, encode_loop, decode_loop}
use phase.Http.Names.{same_name, strcasecmp, case_insensitive_less, compare, folded, c_str, tolower}
use phase.Http.FieldMap.{find, insert}
use phase.Http.Params.{parse_param, parse_loop, find_from, index_of}
use phase.Http.ParamLaws.{joined}
use phase.Http.Message.{
  HttpRequest, HttpResponse, new_request, new_response, get_header, value_or, strcasestr,
  connection_name, content_type_name, form_urlencoded,
}
use phase.Http.Requests.{get_param}
use phase.Http.Dump.{
  dump_request, dump_response, request_line, status_line, content_length_name, close_or_keep, crlf,
  decimal, named,
}
use phase.Http.DumpLaws.{values, lines, request_fields, dump_request_fields}
use phase.Http.ResponseLaws.{response_fields, dump_response_fields}
use phase.Http.RequestLaws.{IsValid}
use phase.Http.Calls.{
  Call, query_set, body_set, header_set, param_got, cookie_got, param_set, run_all, calls_return,
}
use phase.Http.Queries.{encoded_pairs, first_value, get_param-printed}

-- "Host" and "HOST".
abbrev host : List ℕ
host = 72 ∷ 111 ∷ 115 ∷ 116 ∷ []

abbrev upper_host : List ℕ
upper_host = 72 ∷ 79 ∷ 83 ∷ 84 ∷ []

-- "a=1&b=2".
abbrev two_params : List ℕ
two_params = 97 ∷ 61 ∷ 49 ∷ 38 ∷ 98 ∷ 61 ∷ 50 ∷ []

abbrev request : HttpRequest
request = record (new_request 17 true) { query = two_params; headers = (host, 120 ∷ []) ∷ [] }

request-IsValid : IsValid request
unfolding new_request
request-IsValid = record {
  headers_ordered = (tt, tt);
  params_ordered = tt;
  cookies_ordered = tt;
  three_bits = omega arith;
}

-- Names that differ in the case of their letters are the same.
hosts_same : same_name upper_host host ≡ true
unfolding same_name case_insensitive_less strcasecmp compare folded c_str tolower
hosts_same = refl

two_read :
    parse_param (λ k. k) 38 two_params [] ≡ some ((97 ∷ [], 49 ∷ []) ∷ (98 ∷ [], 50 ∷ []) ∷ [])
unfolding parse_param parse_loop find_from index_of url_decode decode_loop isxdigit insert
    case_insensitive_less strcasecmp compare folded c_str tolower
two_read = refl

abbrev some_calls : List Call
some_calls =
    header_set host (120 ∷ [])
    ∷ query_set (97 ∷ 61 ∷ 49 ∷ 38 ∷ 98 ∷ 61 ∷ 50 ∷ [])
    ∷ body_set (99 ∷ 61 ∷ 51 ∷ [])
    ∷ param_got host []
    ∷ param_set host (49 ∷ [])
    ∷ cookie_got host []
    ∷ []

calls_return_example :
    (s : HttpRequest) × (run_all some_calls (new_request 17 true) ≡ some s) × IsValid s
calls_return_example = calls_return 17 true some_calls

same_letter : same_name (65 ∷ []) (97 ∷ []) ≡ true
unfolding same_name case_insensitive_less strcasecmp compare folded c_str tolower
same_letter = refl

-- The pairs "a b" = "1&2" and "A B" = "3".
abbrev pairs : List (List ℕ × List ℕ)
pairs = (97 ∷ 32 ∷ 98 ∷ [], 49 ∷ 38 ∷ 50 ∷ []) ∷ (65 ∷ 32 ∷ 66 ∷ [], 51 ∷ []) ∷ []

printed :
    joined 38 (encoded_pairs pairs)
    ≡ 97 ∷ 43 ∷ 98 ∷ 61 ∷ 49 ∷ 37 ∷ 50 ∷ 54 ∷ 50 ∷ 38 ∷ 65 ∷ 43 ∷ 66 ∷ 61 ∷ 51 ∷ []
unfolding joined encoded_pairs url_encode encode_loop unreserved escape
printed = refl

no_form : strcasestr (get_header (new_request 17 true) content_type_name []) form_urlencoded ≡ false
unfolding new_request get_header find strcasestr folded c_str tolower
no_form = refl

fresh_request : ((new_request 17 true).parser_param_flag ≡ 0) × ((new_request 17 true).params ≡ [])
unfolding new_request
fresh_request = (refl, refl)

get_param-printed_example :
    (s : HttpRequest) × (get_param
        (record (new_request 17 true) { query = joined 38 (encoded_pairs pairs) })
        (97 ∷ 32 ∷ 66 ∷ [])
        []
      ≡ some (value_or (first_value (97 ∷ 32 ∷ 66 ∷ []) pairs) [], s))
get_param-printed_example =
    get_param-printed (new_request 17 true) pairs (97 ∷ 32 ∷ 66 ∷ []) [] fresh_request.0
      fresh_request.1 no_form
      (
        (
          ((omega arith, (omega arith, (omega arith, tt))), (refl, (refl, (refl, tt)))),
          (omega arith, (omega arith, (omega arith, tt))),
        ),
        (
          (
            ((omega arith, (omega arith, (omega arith, tt))), (refl, (refl, (refl, tt)))),
            (omega arith, tt),
          ),
          tt,
        ),
      )

-- A request with a body, whose headers speak of another length and another connection.
abbrev posted : HttpRequest
posted = record (new_request 17 true) {
  body = 104 ∷ 105 ∷ [];
  headers = (connection_name, 120 ∷ []) ∷ (content_length_name, 57 ∷ []) ∷ (host, 121 ∷ []) ∷ [];
}

dump_request_fields_example :
    (dump_request (λ m. []) posted
      ≡ request_line (λ m. []) posted ++ lines (request_fields posted) ++ crlf ++ posted.body)
    × (values host (request_fields posted) ≡ (
        if named connection_name host
        then close_or_keep posted.close ∷ []
        else if named content_length_name host
        then decimal (length posted.body) ∷ []
        else values host posted.headers))
unfolding new_request
dump_request_fields_example = dump_request_fields (λ m. []) posted host refl refl

abbrev answered : HttpResponse
answered = record (new_response 17 true) {
  body = 104 ∷ 105 ∷ [];
  headers = (content_length_name, 57 ∷ []) ∷ [];
}

dump_response_fields_example :
    (dump_response (λ m. []) answered
      ≡ status_line (λ m. []) answered ++ lines (response_fields answered) ++ crlf ++ answered.body)
    × (values connection_name (response_fields answered) ≡ close_or_keep answered.close ∷ [])
    × (values content_length_name (response_fields answered)
        ≡ values content_length_name answered.headers ++ decimal (length answered.body) ∷ [])
unfolding new_response
dump_response_fields_example = dump_response_fields (λ m. []) answered refl refl
