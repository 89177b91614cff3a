-- ===== src/TcpServer/Accepting.antt =====
-- What startAccept of src/tcpserver/tcpserver.cc hands over, and what it leaves open.
use phase.Base.{
  ℕ, ◌+◌, ◌*◌, ◌/◌, ◌%◌, ◌^◌, ◌<◌, ◌≡◌, ◌∙◌, refl, ap, arith, true, false, Option, none, some, List,
  [], ◌∷◌, ◌++◌, if◌then◌else◌, map,
}
use phase.Socket.State.{Socket, System, Event, accept}
use phase.Socket.Opening.{opens, closes, holds, opens-append, closes-append}
use phase.Socket.Clients.{unknown_to, client_of, accept_lem}
use phase.TcpServer.State.{Task, handle_client, Round, accept_loop, seconds, microseconds}

-- The rounds until the server is found stopped.
abbrev pub going : List Round → List System
going [] = []
going ((stopped, sys) ∷ rounds) = if stopped then [] else sys ∷ going rounds

module _ (sock : Socket) where
  abbrev pub clients : List System → List Socket
  clients [] = []
  clients (sys ∷ rounds) = elim (accept sys sock).0 [
    | none ↦ clients rounds
    | some c ↦ c ∷ clients rounds
  ]

  -- How often a descriptor is accepted that FdManager does not know.
  abbrev pub lost : ℕ → List System → ℕ
  lost fd [] = 0
  lost fd (sys ∷ rounds) = holds fd (unknown_to sys (sys.sys_accept sock.sock)) + lost fd rounds

-- handleClient of a client, with the timeout of a server.
abbrev pub task_for : ℕ → Socket → Task
task_for recv_timeout c = handle_client c (recv_timeout / 1000) (recv_timeout % 1000 * 1000)

abbrev pub holds_clients : ℕ → List Socket → ℕ
holds_clients fd [] = 0
holds_clients fd (c ∷ socks) = holds fd c.sock + holds_clients fd socks

seconds_lem : (v : ℕ) → v < 2 ^ 31 * 1000 → seconds v ≡ v / 1000
unfolding seconds
seconds_lem v h = ground (arith, h)

microseconds_lem : (v : ℕ) → v < 2 ^ 31 * 1000 → microseconds v ≡ v % 1000 * 1000
unfolding microseconds
microseconds_lem v h = ground (arith, h)

-- startAccept hands over the clients that are accepted until the server is found stopped, in order, each
-- with the server's timeout in seconds and microseconds, if it has less than 2^31 seconds. It closes nothing, and what it opens are the
-- clients' descriptors and those that FdManager does not know, which nobody holds.
pub accept_loop_lem :
    (recv_timeout : ℕ) (sock : Socket) (rounds : List Round) (fd : ℕ)
    → recv_timeout < 2 ^ 31 * 1000
    → ((accept_loop recv_timeout sock rounds).0
        ≡ map (task_for recv_timeout) (clients sock (going rounds)))
      × (closes fd (accept_loop recv_timeout sock rounds).1 ≡ 0)
      × (opens fd (accept_loop recv_timeout sock rounds).1
          ≡ holds_clients fd (clients sock (going rounds)) + lost sock fd (going rounds))
unfolding accept_loop
accept_loop_lem recv_timeout sock [] fd h = (refl, refl, refl)
accept_loop_lem recv_timeout sock ((true, sys) ∷ rounds) fd h = (refl, refl, refl)
accept_loop_lem recv_timeout sock ((false, sys) ∷ rounds) fd small =
    by_client (accept sys sock).0 (accept sys sock).1 (accept_lem sys sock fd)
      (accept_loop_lem recv_timeout sock rounds fd small)
  where
    rest : List Task × List Event
    rest = accept_loop recv_timeout sock rounds

    result : Option Socket → List Event → List Task × List Event
    result client e = elim client [
      | none ↦ (rest.0, e ++ rest.1)
      | some c ↦
          (handle_client c (seconds recv_timeout) (microseconds recv_timeout) ∷ rest.0, e ++ rest.1)
    ]

    accepted : Option Socket → List Socket
    accepted client = elim client [
      | none ↦ clients sock (going rounds)
      | some c ↦ c ∷ clients sock (going rounds)
    ]

    exact :
        (c : Socket)
        → handle_client c (seconds recv_timeout) (microseconds recv_timeout)
          ≡ task_for recv_timeout c
    exact c =
        ap (λ s. handle_client c s (microseconds recv_timeout)) (seconds_lem recv_timeout small)
        ∙ ap (handle_client c (recv_timeout / 1000)) (microseconds_lem recv_timeout small)

    missed : ℕ
    missed = holds fd (unknown_to sys (sys.sys_accept sock.sock))

    by_client :
        (client : Option Socket) (e : List Event)
        → (opens fd e ≡ holds fd (client_of client) + missed) × (closes fd e ≡ 0)
        → (rest.0 ≡ map (task_for recv_timeout) (clients sock (going rounds)))
          × (closes fd rest.1 ≡ 0)
          × (opens fd rest.1
              ≡ holds_clients fd (clients sock (going rounds)) + lost sock fd (going rounds))
        → ((result client e).0 ≡ map (task_for recv_timeout) (accepted client))
          × (closes fd (result client e).1 ≡ 0)
          × (opens fd (result client e).1
              ≡ holds_clients fd (accepted client) + (missed + lost sock fd (going rounds)))
    by_client none e h k = (
      k.0,
      omega (arith, h, k.1, closes-append fd e rest.1),
      omega (arith, h, k.2, opens-append fd e rest.1),
    )
    by_client (some c) e h k = (
      ap (λ z. z ∷ rest.0) (exact c) ∙ ap (λ z. task_for recv_timeout c ∷ z) k.0,
      omega (arith, h, k.1, closes-append fd e rest.1),
      omega (arith, h, k.2, opens-append fd e rest.1),
    )
