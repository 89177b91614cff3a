-- ===== src/Socket/Calls.antt =====
-- Sequences of calls of one socket of src/socket/socket.cc, from its making to its destruction.
use phase.Base.{Option, ℕ, ◌+◌, ◌≡◌, arith, List, [], ◌∷◌, ◌++◌}
use phase.Socket.State.{
  Address, Socket, System, Event, new_socket, close, destroy, connect, reconnect, bind,
  get_local_address, get_remote_address, accept,
}
use phase.Socket.Clients.{client_of, unknown_to, accept_lem}
use phase.Socket.Opening.{
  opens-append, closes-append, opens, closes, holds, close-Accounts, destroy-Accounts, connect-Kept,
  reconnect-Kept, bind-Kept,
}

-- A call, with what the system answers while it lasts.
pub data Call : Type 0 where
  to_bind : System → Address → Call
  to_connect : System → Address → Option ℕ → Call
  to_reconnect : System → Option ℕ → Call
  to_listen : System → ℕ → Call
  to_accept : System → Call
  to_close : Call
  local_asked : System → Call
  remote_asked : System → Call

abbrev pub after_call : Socket → Call → Socket × List Event
after_call s (to_bind sys addr) = let r = bind sys s addr in (r.1, r.2)
after_call s (to_connect sys addr timeout) = let r = connect sys s addr timeout in (r.1, r.2)
after_call s (to_reconnect sys timeout) = let r = reconnect sys s timeout in (r.1, r.2)
after_call s (to_listen sys backlog) = (s, [])
after_call s (to_accept sys) = (s, (accept sys s).1)
after_call s to_close = let r = close s in (r.1, r.2)
after_call s (local_asked sys) = ((get_local_address sys s).1, [])
after_call s (remote_asked sys) = ((get_remote_address sys s).1, [])

unfoldable pub run_calls : Socket → List Call → Socket × List Event
run_calls s [] = (s, [])
run_calls s (c ∷ calls) =
    let r = after_call s c in let rest = run_calls r.0 calls in (rest.0, r.1 ++ rest.1)

-- The calls and the destructor.
unfoldable pub lifetime : Socket → List Call → List Event
unfolding run_calls destroy
lifetime s calls = let r = run_calls s calls in r.1 ++ destroy r.0

-- How often a call of accept opens a descriptor: that of the client that it returns, or one that FdManager
-- does not know as an open socket, for which it returns a null pointer.
abbrev pub taken_by : ℕ → Socket → Call → ℕ
taken_by fd s (to_accept sys) =
    holds fd (client_of (accept sys s).0) + holds fd (unknown_to sys (sys.sys_accept s.sock))
taken_by fd s (to_bind sys addr) = 0
taken_by fd s (to_connect sys addr timeout) = 0
taken_by fd s (to_reconnect sys timeout) = 0
taken_by fd s (to_listen sys backlog) = 0
taken_by fd s to_close = 0
taken_by fd s (local_asked sys) = 0
taken_by fd s (remote_asked sys) = 0

abbrev pub taken : ℕ → Socket → List Call → ℕ
taken fd s [] = 0
taken fd s (c ∷ calls) = taken_by fd s c + taken fd (after_call s c).0 calls

-- What was held and what is opened is what is closed, what is held after it, and what accept took.
abbrev Counts : ℕ → Option ℕ → List Event → Option ℕ → ℕ → Type 0
Counts fd before e after more = opens fd e + holds fd before ≡ closes fd e + holds fd after + more

after_call-Counts :
    (fd : ℕ) (s : Socket) (c : Call)
    → Counts fd s.sock (after_call s c).1 (after_call s c).0.sock (taken_by fd s c)
after_call-Counts fd s (to_bind sys addr) = let e = bind-Kept sys s addr fd in omega (arith, e)
after_call-Counts fd s (to_connect sys addr timeout) =
    let e = connect-Kept sys s addr timeout fd in omega (arith, e)
after_call-Counts fd s (to_reconnect sys timeout) =
    let e = reconnect-Kept sys s timeout fd in omega (arith, e)
after_call-Counts fd s (to_listen sys backlog) = omega arith
after_call-Counts fd s (to_accept sys) = let e = accept_lem sys s fd in omega (arith, e.0, e.1)
after_call-Counts fd s to_close = let e = close-Accounts s fd in omega (arith, e)
after_call-Counts fd s (local_asked sys) = unfold get_local_address in omega arith
after_call-Counts fd s (remote_asked sys) = unfold get_remote_address in omega arith

run_calls-Counts :
    (fd : ℕ) (s : Socket) (calls : List Call)
    → Counts fd s.sock (run_calls s calls).1 (run_calls s calls).0.sock (taken fd s calls)
unfolding run_calls
run_calls-Counts fd s [] = omega arith
run_calls-Counts fd s (c ∷ calls) =
    let s' : Socket = (after_call s c).0 in
    let first = after_call-Counts fd s c in
    let rest = run_calls-Counts fd s' calls in
    omega (
      arith,
      first,
      rest,
      opens-append fd (after_call s c).1 (run_calls s' calls).1,
      closes-append fd (after_call s c).1 (run_calls s' calls).1,
    )

-- Whatever of bind, connect, reconnect, listen, accept, close and the questions for its addresses is
-- called of a new socket, and whatever the system answers, when the socket is destroyed every descriptor
-- was closed as often as it was opened, those of the sockets that bind makes to ask at a Unix address
-- included, but for what accept opens: the descriptors of the clients that it returns, and those that
-- FdManager does not know, which nobody holds. While the socket lasts, it holds the one that was opened
-- once more, if any.
pub lifetime_lem :
    (family kind protocol : ℕ) (calls : List Call) (fd : ℕ)
    → (opens fd (lifetime (new_socket family kind protocol) calls)
        ≡ closes fd (lifetime (new_socket family kind protocol) calls)
          + taken fd (new_socket family kind protocol) calls)
      × (opens fd (run_calls (new_socket family kind protocol) calls).1
          ≡ closes fd (run_calls (new_socket family kind protocol) calls).1
            + holds fd (run_calls (new_socket family kind protocol) calls).0.sock
            + taken fd (new_socket family kind protocol) calls)
unfolding lifetime
lifetime_lem family kind protocol calls fd =
    let s : Socket = new_socket family kind protocol in
    let r = run_calls s calls in
    let kept = run_calls-Counts fd s calls in
    let gone = destroy-Accounts r.0 fd in
    (
      omega (
        arith,
        kept,
        gone,
        opens-append fd r.1 (destroy r.0),
        closes-append fd r.1 (destroy r.0),
      ),
      omega (arith, kept),
    )
