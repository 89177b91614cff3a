-- ===== src/Socket/Tests.antt =====
-- The theorems on src/socket/socket.cc at concrete systems and calls.
use phase.Base.{◌+◌, ◌≡◌, refl, true, false, none, some, List, [], ◌∷◌, ◌==◌}
use phase.Socket.State.{Address, System, new_socket, bind, accept, get_local_address}
use phase.Socket.Opening.{opens, closes, holds}
use phase.Socket.Calls.{
  Call, to_bind, to_connect, to_close, to_listen, to_accept, taken, run_calls, lifetime,
  lifetime_lem,
}
use phase.Socket.Bound.{bound_address}

-- Any port, and the port that the system chooses.
abbrev any_port : Address
any_port = record { family = 2; is_unix = false; body = 0 ∷ [] }

abbrev chosen_port : Address
chosen_port = record { family = 2; is_unix = false; body = 8080 ∷ [] }

abbrev unix_path : Address
unix_path = record { family = 1; is_unix = true; body = 97 ∷ [] }

-- A system that gives descriptor 3, refuses to connect, and has chosen a port.
abbrev refusing : System
refusing = record {
  sys_socket = λ f k p. some 3;
  sys_bind = λ fd a. true;
  sys_connect = λ fd a t. false;
  sys_listen = λ fd n. true;
  sys_accept = λ s. some 4;
  getsockname = λ s. some chosen_port;
  getpeername = λ s. none;
  is_open_socket = λ fd. fd == 4;
}

abbrev calls : List Call
calls =
    to_bind refusing unix_path
    ∷ to_listen refusing 8
    ∷ to_accept refusing
    ∷ to_connect refusing unix_path none
    ∷ to_bind refusing unix_path
    ∷ []

lifetime_lem_example :
    (opens 4 (lifetime (new_socket 1 1 0) calls)
      ≡ closes 4 (lifetime (new_socket 1 1 0) calls) + taken 4 (new_socket 1 1 0) calls)
    × (opens 4 (run_calls (new_socket 1 1 0) calls).1
        ≡ closes 4 (run_calls (new_socket 1 1 0) calls).1
          + holds 4 (run_calls (new_socket 1 1 0) calls).0.sock
          + taken 4 (new_socket 1 1 0) calls)
lifetime_lem_example = lifetime_lem 1 1 0 calls 4

-- The descriptor is opened four times: twice for the socket, and twice to ask at the address.
opened_four_times : opens 3 (lifetime (new_socket 1 1 0) calls) ≡ 4
unfolding lifetime bind accept
opened_four_times = refl

bound_address_example :
    (get_local_address refusing
      (run_calls
        (bind refusing (new_socket 2 1 0) any_port).1
        (to_listen refusing 8 ∷ to_close ∷ [])).0).0
    ≡ any_port
bound_address_example =
    bound_address refusing refusing (new_socket 2 1 0) any_port
      (to_listen refusing 8 ∷ to_close ∷ []) tt
