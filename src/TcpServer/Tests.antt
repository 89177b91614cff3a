-- ===== src/TcpServer/Tests.antt =====
-- The theorems on src/tcpserver/tcpserver.cc at concrete systems.
use phase.Base.{
  arith, ℕ, ◌+◌, ◌≡◌, refl, Bool, true, false, Option, none, some, List, [], ◌∷◌, map, ◌==◌,
}
use phase.Socket.State.{Address, System, create_tcp, bind, listen, destroy}
use phase.Socket.Opening.{opens, closes}
use phase.TcpServer.State.{Wanted, Round, new_server, bind_all, accept_loop}
use phase.TcpServer.Accepting.{going, clients, lost, task_for, holds_clients, accept_loop_lem}

abbrev wanted_address : Address
wanted_address = record { family = 2; is_unix = false; body = [] }

-- A system whose bind and accept answer as they are told, with this descriptor.
abbrev answering : ℕ → Bool → Option ℕ → System
answering fd ok client = record {
  sys_socket = λ f k p. some fd;
  sys_bind = λ fd a. ok;
  sys_connect = λ fd a t. false;
  sys_listen = λ fd n. true;
  sys_accept = λ s. client;
  getsockname = λ s. some wanted_address;
  getpeername = λ s. some wanted_address;
  is_open_socket = λ fd. fd == 7;
}

abbrev two_addresses : List Wanted
two_addresses =
    (answering 3 true none, wanted_address) ∷ (answering 4 false none, wanted_address) ∷ []

one_fails : (bind_all (new_server 5) two_addresses []).2 ≡ wanted_address ∷ []
unfolding bind_all bind listen destroy new_server
one_fails = refl

-- A client, a descriptor that FdManager does not know, a failure, and then the server is stopped.
abbrev rounds : List Round
rounds =
    (false, answering 3 true (some 7))
    ∷ (false, answering 3 true (some 9))
    ∷ (false, answering 3 true none)
    ∷ (true, answering 3 true (some 7))
    ∷ []

accept_loop_lem_example :
    ((accept_loop 1500 (create_tcp 2) rounds).0
      ≡ map (task_for 1500) (clients (create_tcp 2) (going rounds)))
    × (closes 9 (accept_loop 1500 (create_tcp 2) rounds).1 ≡ 0)
    × (opens 9 (accept_loop 1500 (create_tcp 2) rounds).1
        ≡ holds_clients 9 (clients (create_tcp 2) (going rounds))
          + lost (create_tcp 2) 9 (going rounds))
accept_loop_lem_example = accept_loop_lem 1500 (create_tcp 2) rounds 9 (omega arith)

-- The descriptor 9 stays open and nobody holds it.
nine_is_lost : lost (create_tcp 2) 9 (going rounds) ≡ 1
nine_is_lost = refl
