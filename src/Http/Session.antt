-- ===== src/Http/Session.antt =====
-- HttpRequestParser of src/http/HttpParser.cc, HttpSession::recvRequest of src/http/HttpSession.cc and
-- HttpServer::handleClient of src/http/HttpServer.cc. The copied parser is an argument: what it calls
-- back, how many bytes it parsed, and its two flags.
use phase.Base.{
  ℕ, zero, suc, ◌+◌, ◌*◌, ◌%◌, Bool, true, false, not, ◌||◌, Option, none, some, List, [], ◌∷◌,
  ◌++◌, length, drop, leb, ltb, ◌^◌, sub64, ◌==◌, if◌then◌else◌,
}
use phase.Stream.Reading.{Transfer, moved, ended, broken}
use phase.Http.Message.{HttpRequest, HttpResponse, new_request, new_response, init}
use phase.Http.Requests.{set_header, response_set_header}
use phase.Http.Servlets.{
  Servlet, ServletDispatch, dispatch_handle, get_matched_servlet, server_name,
}

-- The callbacks with what they are given: the parts of a url that parses, or that it does not; the rest
-- of the ten do nothing.
pub data ParserEvent : Type 0 where
  headers_complete : ℕ → ℕ → ℕ → ParserEvent
  message_complete : ParserEvent
  url : Option (List ℕ) → Option (List ℕ) → Option (List ℕ) → ParserEvent
  bad_url : ParserEvent
  header_field : List ℕ → ParserEvent
  header_value : List ℕ → ParserEvent
  body_part : List ℕ → ParserEvent

-- What one call of http_parser_execute did.
pub record Executed (P : Type 0) : Type 0 where
  pub events : List ParserEvent
  pub nparsed : ℕ
  pub upgrade : Bool
  pub http_errno : ℕ
  pub next : P

pub record HttpRequestParser (P : Type 0) : Type 0 where
  pub parser : P
  pub data_request : HttpRequest
  pub field : List ℕ
  pub error : ℕ
  pub finished : Bool

abbrev pub with_part : Option (List ℕ) → List ℕ → List ℕ
with_part none old = old
with_part (some part) old = part

-- The callbacks, on the request, the field and whether the message is finished.
abbrev pub Built : Type 0
Built = HttpRequest × List ℕ × Bool

unfoldable pub on_event : Built → ParserEvent → Built
unfolding set_header
on_event (r, field, finished) (headers_complete major minor method) =
    (record r { version = (major * 16 + minor) % 256; method = method }, field, finished)
on_event (r, field, finished) message_complete = (r, field, true)
on_event (r, field, finished) (url path query fragment) = (
  record r {
    path = with_part path r.path;
    query = with_part query r.query;
    fragment = with_part fragment r.fragment;
  },
  field,
  finished,
)
on_event (r, field, finished) bad_url = (r, field, finished)
on_event (r, field, finished) (header_field name) = (r, name, finished)
on_event (r, field, finished) (header_value value) = (set_header r field value, field, finished)
on_event (r, field, finished) (body_part part) =
    (record r { body = r.body ++ part }, field, finished)

unfoldable pub on_events : Built → List ParserEvent → Built
unfolding on_event
on_events b [] = b
on_events b (e ∷ events) = on_events (on_event b e) events

-- HPE_UNKNOWN.
abbrev pub hpe_unknown : ℕ
hpe_unknown = 32

-- What became of recvRequest: a request, with the bytes of the buffer that were not parsed; the
-- connection closed and no request; undefined behaviour; or, when the rounds are over, none of these yet.
pub data Received : Type 0 where
  received : HttpRequest → List ℕ → Received
  closed : Received
  fault : Received
  waiting : Received

module _ {P : Type 0} (start : P) (http_parser_execute : P → List ℕ → Executed P) where
  -- The constructor.
  unfoldable pub new_parser : HttpRequestParser P
  unfolding new_request
  new_parser = record {
    parser = start;
    data_request = new_request 17 true;
    field = [];
    error = 0;
    finished = false;
  }

  -- `execute`: the bytes parsed, and the parser after it.
  unfoldable pub execute : HttpRequestParser P → List ℕ → ℕ × HttpRequestParser P
  unfolding on_events
  execute p bytes =
      let done : Executed P = http_parser_execute p.parser bytes in
      let built : Built = on_events (p.data_request, p.field, p.finished) done.events in
      (
        done.nparsed,
        record {
          parser = done.next;
          data_request = built.0;
          field = built.1;
          error =
              if done.upgrade
              then hpe_unknown
              else if not (done.http_errno == 0)
              then done.http_errno
              else p.error;
          finished = built.2;
        },
      )

  module _ {S : Type 0} (read : S → ℕ → Transfer × S) (buff_size : ℕ) where
    -- `kept` is the first `offset` bytes of the buffer; `asked` gathers where each round reads to and how
    -- much it asks for. An int `len` that overflows is a fault, and so is a next round after the parser
    -- says that it parsed more than it was given, as `offset` is then not one of the buffer.
    unfoldable pub recv_loop :
        ℕ → S → HttpRequestParser P → List ℕ → List (ℕ × ℕ) → Received × S × List (ℕ × ℕ)
    unfolding execute init
    recv_loop zero s p kept asked = (waiting, s, asked)
    recv_loop (suc fuel) s p kept asked =
        let n : ℕ = sub64 buff_size (length kept) in
        let asked' : List (ℕ × ℕ) = asked ++ (length kept, n) ∷ [] in
        elim (read s n).0 [
          | ended ↦ (closed, (read s n).1, asked')
          | broken ↦ (closed, (read s n).1, asked')
          | moved b bytes ↦
              let bytes' : List ℕ = kept ++ b ∷ bytes in
              let done : ℕ × HttpRequestParser P = execute p bytes' in
              let rest = recv_loop fuel (read s n).1 done.1 (drop done.0 bytes') asked' in
              if leb (2 ^ 31) (length bytes')
              then (fault, (read s n).1, asked')
              else if not (done.1.error == 0)
              then (closed, (read s n).1, asked')
              else if sub64 (length bytes') done.0 % 2 ^ 32 == buff_size % 2 ^ 32
              then (closed, (read s n).1, asked')
              else if done.1.finished
              then (received (init done.1.data_request) (drop done.0 bytes'), (read s n).1, asked')
              else if ltb (length bytes') done.0
              then (fault, (read s n).1, asked')
              else rest
        ]

    unfoldable pub recv_request : ℕ → S → Received × S × List (ℕ × ℕ)
    unfolding recv_loop new_parser
    recv_request fuel s = recv_loop fuel s new_parser [] []

-- The servlets of a server: how paths match, what the servlets do to a response, what the request's isClose
-- says after it, and the dispatcher.
pub record HttpServer : Type 0 where
  pub is_keepalive : Bool
  pub name : List ℕ
  pub fnmatch : List ℕ → List ℕ → Bool
  pub handle : Servlet → HttpRequest → HttpResponse → HttpResponse
  pub close_after : Servlet → HttpRequest → HttpResponse → Bool
  pub dispatch : ServletDispatch

-- The response that handleClient hands to the dispatcher.
abbrev pub prepared : HttpServer → HttpRequest → HttpResponse
prepared h r =
    response_set_header (new_response r.version (r.close || not h.is_keepalive)) server_name h.name

-- The response that handleClient sends for a request.
unfoldable pub respond : HttpServer → HttpRequest → HttpResponse
unfolding new_response response_set_header dispatch_handle
respond h r = dispatch_handle h.fnmatch h.handle h.dispatch r (prepared h r)

-- `req->isClose()` behind the dispatcher's `handle`, which may change the request.
unfoldable pub closed_after : HttpServer → HttpRequest → Bool
unfolding get_matched_servlet
closed_after h r = elim (get_matched_servlet h.fnmatch h.dispatch r.path) [
  | none ↦ r.close
  | some slt ↦ h.close_after slt r (prepared h r)
]

-- The loop of handleClient over what recvRequest returns, null being `none`, with what was sent so
-- far. The result is all that was sent when the session is closed, or `none` before that.
unfoldable pub serve :
    HttpServer → List (Option HttpRequest) → List HttpResponse → Option (List HttpResponse)
unfolding respond closed_after
serve h [] sent = none
serve h (none ∷ requests) sent = some sent
serve h (some r ∷ requests) sent =
    let sent' : List HttpResponse = sent ++ respond h r ∷ [] in
    let rest = serve h requests sent' in
    if not h.is_keepalive || closed_after h r then some sent' else rest
