-- ===== src/TcpServer/State.antt =====
-- The class TcpServer of src/tcpserver/tcpserver.cc. What is handed to a worker is a list of tasks.
use phase.Base.{
  ℕ, ◌*◌, ◌/◌, ◌%◌, ◌-◌, ◌^◌, ltb, Bool, true, false, not, none, some, List, [], ◌∷◌, ◌++◌, map,
  if◌then◌else◌,
}
use phase.Socket.State.{
  Address, Socket, System, Event, create_tcp, close, destroy, bind, listen, accept,
}

-- What a worker is to run: startAccept of a socket, handleClient of a client with its receive timeout in
-- seconds and microseconds, and the end of stop.
pub data Task : Type 0 where
  start_accept : Socket → Task
  handle_client : Socket → ℕ → ℕ → Task
  close_socks : Task

pub record TcpServer : Type 0 where
  pub socks : List Socket
  pub recv_timeout : ℕ
  pub is_stop : Bool
  pub io_worker : List Task
  pub accept_worker : List Task

-- The read timeout is the configuration's.
unfoldable pub new_server : ℕ → TcpServer
new_server recv_timeout = record {
  socks = [];
  recv_timeout = recv_timeout;
  is_stop = true;
  io_worker = [];
  accept_worker = [];
}

unfoldable pub destroy_all : List Socket → List Event
destroy_all [] = []
destroy_all (s ∷ socks) = destroy s ++ destroy_all socks

-- An address to bind, with what the system answers meanwhile.
abbrev pub Wanted : Type 0
Wanted = System × Address

-- SOMAXCONN.
abbrev pub backlog : ℕ
backlog = 4096

-- The sockets, the addresses that fail, and what was opened and closed.
abbrev pub Bindings : Type 0
Bindings = List Socket × List Address × List Event

-- The loop of bind.
unfoldable pub bind_loop : List Socket → List Address → List Wanted → Bindings
bind_loop socks fails [] = (socks, fails, [])
bind_loop socks fails ((sys, addr) ∷ addrs) =
    let (bound, s, e) = bind sys (create_tcp addr.family) addr in
    let failed = bind_loop socks (fails ++ addr ∷ []) addrs in
    let done = bind_loop (socks ++ s ∷ []) fails addrs in
    if not bound
    then (failed.0, failed.1, e ++ destroy s ++ failed.2)
    else if not (listen sys s backlog)
    then (failed.0, failed.1, e ++ destroy s ++ failed.2)
    else (done.0, done.1, e ++ done.2)

-- Whether the bind succeeds, the server, the addresses that failed, and the events.
abbrev pub Bound : Type 0
Bound = Bool × TcpServer × List Address × List Event

abbrev pub settle : TcpServer → Bindings → Bound
settle server (socks, [], e) = (true, record server { socks = socks }, [], e)
settle server (socks, a ∷ fails, e) =
    (false, record server { socks = [] }, a ∷ fails, e ++ destroy_all socks)

unfoldable pub bind_all : TcpServer → List Wanted → List Address → Bound
unfolding bind_loop destroy_all
bind_all server addrs fails = settle server (bind_loop server.socks fails addrs)

unfoldable pub start : TcpServer → TcpServer
start server = if not server.is_stop then server else record server {
  is_stop = false;
  accept_worker = server.accept_worker ++ map start_accept server.socks;
}

unfoldable pub stop : TcpServer → TcpServer
stop server = record server {
  is_stop = true;
  accept_worker = server.accept_worker ++ close_socks ∷ [];
}

unfoldable pub close_all : List Socket → List Event
close_all [] = []
close_all (s ∷ socks) = (close s).2 ++ close_all socks

-- The task that stop hands over, when it runs.
unfoldable pub run_close_socks : TcpServer → TcpServer × List Event
unfolding close_all
run_close_socks server = (record server { socks = [] }, close_all server.socks)

-- A round of startAccept: whether the server is stopped at its test, and what the system answers.
abbrev pub Round : Type 0
Round = Bool × System

-- `int` of a number, and of a negative one, as bit patterns of 32 bits.
abbrev pub int_bits : ℕ → ℕ
int_bits n = n % 2 ^ 32

abbrev pub negative_int_bits : ℕ → ℕ
negative_int_bits n = (2 ^ 32 - n % 2 ^ 32) % 2 ^ 32

-- The timeval that setRecvTimeout makes of the server's timeout, which becomes an int64_t: its seconds
-- and microseconds, as bit patterns.
unfoldable pub seconds : ℕ → ℕ
seconds v = if ltb v (2 ^ 63) then int_bits (v / 1000) else negative_int_bits ((2 ^ 64 - v) / 1000)

unfoldable pub microseconds : ℕ → ℕ
microseconds v =
    if ltb v (2 ^ 63)
    then int_bits (v % 1000 * 1000)
    else negative_int_bits ((2 ^ 64 - v) % 1000 * 1000)

-- startAccept over these rounds: what it hands to the I/O worker, and the events.
unfoldable pub accept_loop : ℕ → Socket → List Round → List Task × List Event
unfolding seconds microseconds
accept_loop recv_timeout sock [] = ([], [])
accept_loop recv_timeout sock ((stopped, sys) ∷ rounds) =
    let (client, e) = accept sys sock in
    let rest = accept_loop recv_timeout sock rounds in
    if stopped then ([], []) else elim client [
      | none ↦ (rest.0, e ++ rest.1)
      | some c ↦
          (handle_client c (seconds recv_timeout) (microseconds recv_timeout) ∷ rest.0, e ++ rest.1)
    ]
