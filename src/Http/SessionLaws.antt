-- ===== src/Http/SessionLaws.antt =====
-- The buffer of HttpSession::recvRequest in src/http/HttpSession.cc, and the headers that the callbacks
-- of src/http/HttpParser.cc build.
use phase.Base.{
  true, leb, ltb, ◌+◌, ◌%◌, ◌^◌, sub64, if_either, ℕ, zero, suc, ◌-◌, ◌≤◌, ◌<◌, ◌≡◌, refl, ap, sym,
  subst, ◌∙◌, Bool, false, not, List, [], ◌∷◌, ◌++◌, length, map, drop, ◌==◌, if◌then◌else◌, arith,
  All, Bool-cases, inl, inr, length-append, length-drop,
}
use phase.Stream.Reading.{Transfer, moved, ended, broken, Transfer-cases}
use phase.Http.Names.{same_name}
use phase.Http.FieldMap.{find-assign}
use phase.Http.Message.{HttpRequest, get_header, init}
use phase.Http.Requests.{set_header}
use phase.Http.Session.{
  ParserEvent, header_field, header_value, Executed, HttpRequestParser, Built, on_event, on_events,
  execute, recv_loop, recv_request, new_parser, Received, received, closed, fault, waiting,
}

-- What the code relies on: a read moves no more than was asked for.
abbrev pub Fits : ℕ → Transfer → Type 0
Fits n (moved b bytes) = length bytes < n
Fits n ended = Unit
Fits n broken = Unit

-- Each round asked for a byte at least, and for exactly what is left of the buffer from where it reads to.
abbrev AskedWell : ℕ → List (ℕ × ℕ) → Type 0
AskedWell buff_size asked = All (λ r. (0 < r.1) × (r.0 + r.1 ≡ buff_size)) asked

AskedWell-snoc :
    (buff_size : ℕ) (asked : List (ℕ × ℕ)) (offset n : ℕ)
    → AskedWell buff_size asked
    → 0 < n
    → offset + n ≡ buff_size
    → AskedWell buff_size (asked ++ (offset, n) ∷ [])
AskedWell-snoc buff_size [] offset n a h k = ((h, k), tt)
AskedWell-snoc buff_size (x ∷ asked) offset n (a, rest) h k =
    (a, AskedWell-snoc buff_size asked offset n rest h k)

abbrev pub is_fault : Received → Bool
is_fault (received r rest) = false
is_fault closed = false
is_fault fault = true
is_fault waiting = false

left_lem : (size offset : ℕ) → size < 2 ^ 31 → offset < size → sub64 size offset ≡ size - offset
left_lem size offset h k = ground (arith, h, k)

-- What is kept is less than the buffer, where `offset` is not its size.
room :
    (buff_size len nparse rest : ℕ)
    → len ≤ buff_size
    → nparse ≤ len
    → buff_size < 2 ^ 31
    → rest ≡ len - nparse
    → (sub64 len nparse % 2 ^ 32 == buff_size % 2 ^ 32) ≡ false
    → rest < buff_size
room buff_size len nparse rest h1 h2 h3 h4 h5 = ground (arith, h1, h2, h3, h4, h5)

module _ {P : Type 0} (start : P) (http_parser_execute : P → List ℕ → Executed P) {S : Type 0}
    (read : S → ℕ → Transfer × S) (buff_size : ℕ)
    (read_fits : (s : S) (n : ℕ) → Fits n (read s n).0)
    (parse_fits : (p : P) (bytes : List ℕ)
      → (http_parser_execute p bytes).nparsed ≤ length bytes) where
  abbrev Well : Received × S × List (ℕ × ℕ) → Type 0
  Well r = (is_fault r.0 ≡ false) × AskedWell buff_size r.2

  -- A round in which bytes were read.
  recv_round :
      (fuel : ℕ) (s : S) (p : HttpRequestParser P) (kept : List ℕ) (asked : List (ℕ × ℕ)) (b : ℕ)
      (bytes : List ℕ)
      → (read s (sub64 buff_size (length kept))).0 ≡ moved b bytes
      → recv_loop start http_parser_execute read buff_size (suc fuel) s p kept asked ≡ (
          let t : S = (read s (sub64 buff_size (length kept))).1 in
          let all_asked : List (ℕ × ℕ) =
            asked ++ (length kept, sub64 buff_size (length kept)) ∷ [] in
          let whole : List ℕ = kept ++ b ∷ bytes in
          let done : ℕ × HttpRequestParser P = execute start http_parser_execute p whole in
          if leb (2 ^ 31) (length whole)
          then (fault, t, all_asked)
          else if not (done.1.error == 0)
          then (closed, t, all_asked)
          else if sub64 (length whole) done.0 % 2 ^ 32 == buff_size % 2 ^ 32
          then (closed, t, all_asked)
          else if done.1.finished
          then (received (init done.1.data_request) (drop done.0 whole), t, all_asked)
          else if ltb (length whole) done.0
          then (fault, t, all_asked)
          else recv_loop start http_parser_execute read buff_size fuel t done.1
              (drop done.0 whole)
              all_asked)
  unfolding recv_loop
  recv_round fuel s p kept asked b bytes e = rw (e, recv_loop) refl

  parsed :
      (p : HttpRequestParser P) (bytes : List ℕ)
      → (execute start http_parser_execute p bytes).0 ≤ length bytes
  unfolding execute
  parsed p bytes = parse_fits p.parser bytes

  recv_loop-Well :
      (fuel : ℕ) (s : S) (p : HttpRequestParser P) (kept : List ℕ) (asked : List (ℕ × ℕ))
      → buff_size < 2 ^ 31
      → length kept < buff_size
      → AskedWell buff_size asked
      → Well (recv_loop start http_parser_execute read buff_size fuel s p kept asked)
  unfolding recv_loop
  recv_loop-Well zero s p kept asked small h a = (refl, a)
  recv_loop-Well (suc fuel) s p kept asked small h a =
      let n : ℕ = sub64 buff_size (length kept) in
      let is_left : n ≡ buff_size - length kept = left_lem buff_size (length kept) small h in
      let well : AskedWell buff_size (asked ++ (length kept, n) ∷ []) =
        AskedWell-snoc buff_size asked (length kept) n a (omega (arith, h, is_left))
          (omega (arith, h, is_left)) in
      elim (Transfer-cases (read s n).0) [
        | inr (inl e) ↦ rw (e, recv_loop) (refl, well)
        | inr (inr e) ↦ rw (e, recv_loop) (refl, well)
        | inl (b, bytes, e) ↦
            let few : length bytes < n = subst (Fits n) e (read_fits s n) in
            let whole : List ℕ = kept ++ b ∷ bytes in
            let size : length whole ≤ buff_size =
              omega (arith, few, h, is_left, length-append kept (b ∷ bytes)) in
            let done : ℕ × HttpRequestParser P = execute start http_parser_execute p whole in
            let within : done.0 ≤ length whole = parsed p whole in
            subst Well (sym (recv_round fuel s p kept asked b bytes e)) (
              if_either Well (leb (2 ^ 31) (length whole)) _ _
                (λ big. absurd (ground (arith, big, size, small)))
                (λ _.
                  if_either Well (not (done.1.error == 0)) _ _ (λ _. (refl, well))
                    (λ _.
                      if_either Well (sub64 (length whole) done.0 % 2 ^ 32 == buff_size % 2 ^ 32) _
                        _ (λ _. (refl, well))
                        (λ short.
                          if_either Well done.1.finished _ _ (λ _. (refl, well))
                            (λ _.
                              if_either Well (ltb (length whole) done.0) _ _
                                (λ over. absurd (ground (arith, over, within)))
                                (λ _.
                                  recv_loop-Well fuel _ _ (drop done.0 whole) _ small
                                    (room buff_size (length whole) done.0
                                      (length (drop done.0 whole)) size within small
                                      (length-drop done.0 whole) short)
                                    well))))))
      ]

  -- Whatever arrives and however it is parsed, as long as the parser parses no more than it is given, and
  -- for a buffer of less than 2^31 bytes, every read of recvRequest asks for at least one byte and for
  -- exactly what the buffer has left behind the bytes that it keeps, so that the buffer never overflows
  -- and no read of nothing is taken for the end of the connection; and nothing undefined happens.
  pub recv_request_asked :
      (fuel : ℕ) (s : S)
      → 0 < buff_size
      → buff_size < 2 ^ 31
      → (is_fault (recv_request start http_parser_execute read buff_size fuel s).0 ≡ false)
        × All
            (λ r. (0 < r.1) × (r.0 + r.1 ≡ buff_size))
            (recv_request start http_parser_execute read buff_size fuel s).2
  unfolding recv_request
  recv_request_asked fuel s h small =
      recv_loop-Well fuel s (new_parser start http_parser_execute) [] [] small (omega (arith, h)) tt

-- The values that the parser calls back with, for one field.
abbrev pub value_events : List (List ℕ) → List ParserEvent
value_events values = map header_value values

set_other :
    (r : HttpRequest) (field v name def : List ℕ)
    → same_name name field ≡ false
    → get_header (set_header r field v) name def ≡ get_header r name def
unfolding get_header set_header
set_other r field v name def h = ground (arith, h, find-assign name field v r.headers)

set_last :
    (r : HttpRequest) (field v name def : List ℕ)
    → get_header (set_header r field v) name def
      ≡ (if same_name name field then v else get_header r name def)
unfolding get_header set_header
set_last r field v name def = ground (arith, find-assign name field v r.headers)

values_built :
    (r : HttpRequest) (field : List ℕ) (finished : Bool) (values : List (List ℕ)) (last : List ℕ)
    → (s : HttpRequest) × (on_events
          (r, field, finished)
          (value_events values ++ header_value last ∷ [])
        ≡ (set_header s field last, field, finished))
      × ((name def : List ℕ)
          → same_name name field ≡ false
          → get_header s name def ≡ get_header r name def)
unfolding on_events on_event
values_built r field finished [] last = (r, refl, λ name def h. refl)
values_built r field finished (v ∷ values) last =
    let (s, built, same) = values_built (set_header r field v) field finished values last in
    (s, built, λ name def h. same name def h ∙ set_other r field v name def h)

-- A field's header is the last piece of its value that the parser calls back with: the pieces before
-- are lost, if the value comes in several, as it does when it is split between two reads.
pub header_pieces :
    (r : HttpRequest) (old field : List ℕ) (finished : Bool) (values : List (List ℕ))
    (last : List ℕ)
    → (name def : List ℕ)
    → get_header
        (on_events
          (r, old, finished)
          (header_field field ∷ (value_events values ++ header_value last ∷ []))).0
        name
        def
      ≡ (if same_name name field then last else get_header r name def)
unfolding on_events on_event
header_pieces r old field finished values last name def =
    let (s, built, same) = values_built r field finished values last in
    ap (λ (b : Built). get_header b.0 name def) built
    ∙ set_last s field last name def
    ∙ elim (Bool-cases (same_name name field)) [
      | inl e ↦ rw e refl
      | inr e ↦ rw e (same name def e)
    ]
