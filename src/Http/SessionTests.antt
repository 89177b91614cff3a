-- ===== src/Http/SessionTests.antt =====
-- A session of src/http/HttpSession.cc over a parser that finishes at a line's end, and a server of one
-- servlet.
use phase.Base.{
  Bool-cases, inl, inr, ◌+◌, ℕ, zero, suc, ◌≤◌, ◌<◌, ◌≡◌, Bool, true, false, ◌||◌, none, List, [],
  ◌∷◌, ◌++◌, length, if◌then◌else◌, arith, All, ◌==◌,
}
use phase.Stream.Reading.{Transfer, moved, ended}
use phase.Http.Names.{same_name}
use phase.Http.Message.{HttpRequest, new_request, get_header}
use phase.Http.Session.{
  message_complete, header_field, header_value, Executed, on_events, recv_request, HttpServer,
}
use phase.Http.SessionLaws.{Fits, is_fault, recv_request_asked, value_events, header_pieces}

-- A message ends at the byte 10, and nothing is parsed before it is there.
abbrev line_end : List ℕ → Bool
line_end [] = false
line_end (c ∷ bytes) = (c == 10) || line_end bytes

abbrev line_parser : ℕ → List ℕ → Executed ℕ
line_parser p bytes = record {
  events = if line_end bytes then message_complete ∷ [] else [];
  nparsed = if line_end bytes then length bytes else 0;
  upgrade = false;
  http_errno = 0;
  next = p;
}

-- One byte at a time.
abbrev read_one : List ℕ → ℕ → Transfer × List ℕ
read_one s zero = (ended, s)
read_one [] (suc n) = (ended, [])
read_one (c ∷ s) (suc n) = (moved c [], s)

read_one-Fits : (s : List ℕ) (n : ℕ) → Fits n (read_one s n).0
read_one-Fits s zero = tt
read_one-Fits [] (suc n) = tt
read_one-Fits (c ∷ s) (suc n) = omega arith

line_parser_fits : (p : ℕ) (bytes : List ℕ) → (line_parser p bytes).nparsed ≤ length bytes
line_parser_fits p bytes = elim (Bool-cases (line_end bytes)) [
  | inl e ↦ rw e (omega arith)
  | inr e ↦ rw e (omega arith)
]

recv_request_asked_example :
    (is_fault (recv_request 0 line_parser read_one 4 9 (97 ∷ 98 ∷ 10 ∷ 99 ∷ [])).0 ≡ false)
    × All
        (λ r. (0 < r.1) × (r.0 + r.1 ≡ 4))
        (recv_request 0 line_parser read_one 4 9 (97 ∷ 98 ∷ 10 ∷ 99 ∷ [])).2
recv_request_asked_example =
    recv_request_asked 0 line_parser read_one 4 read_one-Fits line_parser_fits 9
      (97 ∷ 98 ∷ 10 ∷ 99 ∷ []) (omega arith) (omega arith)

-- "a" in two pieces.
header_pieces_example :
    get_header
      (on_events
        (new_request 17 true, [], false)
        (header_field (97 ∷ []) ∷ (value_events ((49 ∷ []) ∷ []) ++ header_value (50 ∷ []) ∷ []))).0
      (65 ∷ [])
      []
    ≡ (if same_name (65 ∷ []) (97 ∷ [])
        then 50 ∷ []
        else get_header (new_request 17 true) (65 ∷ []) [])
header_pieces_example =
    header_pieces (new_request 17 true) [] (97 ∷ []) false ((49 ∷ []) ∷ []) (50 ∷ []) (65 ∷ []) []

abbrev server : HttpServer
server = record {
  is_keepalive = true;
  name = 120 ∷ [];
  fnmatch = λ k uri. false;
  handle = λ slt q p. record p { body = 104 ∷ 105 ∷ [] };
  close_after = λ slt q p. q.close;
  dispatch = record { datas = []; globs = []; fallback = none };
}

abbrev kept : HttpRequest
kept = record (new_request 17 true) { close = false }

abbrev last : HttpRequest
last = record (new_request 17 true) { close = true }
