-- ===== src/TcpServer/Binding.antt =====
-- What bind of src/tcpserver/tcpserver.cc leaves open, and which addresses it reports.
use phase.Base.{ℕ, ◌+◌, ◌≡◌, refl, arith, Bool, true, false, ◌&&◌, List, [], ◌∷◌, if◌then◌else◌}
use phase.Socket.State.{Address, Socket, create_tcp, destroy, bind, listen}
use phase.Socket.Opening.{opens, closes, holds, opens-append, closes-append, destroy-Accounts}
use phase.TcpServer.State.{TcpServer, destroy_all, Wanted, backlog, Bindings}

-- How many of the sockets hold a descriptor.
abbrev pub holds_all : ℕ → List Socket → ℕ
holds_all fd [] = 0
holds_all fd (s ∷ socks) = holds fd s.sock + holds_all fd socks

pub destroy_all_lem :
    (fd : ℕ) (socks : List Socket)
    → opens fd (destroy_all socks) + holds_all fd socks ≡ closes fd (destroy_all socks)
unfolding destroy_all
destroy_all_lem fd [] = refl
destroy_all_lem fd (s ∷ socks) = omega (
  arith,
  destroy-Accounts s fd,
  destroy_all_lem fd socks,
  opens-append fd (destroy s) (destroy_all socks),
  closes-append fd (destroy s) (destroy_all socks),
)

-- An address is bound and listened at.
abbrev pub succeeds : Wanted → Bool
succeeds (sys, addr) =
    let r = bind sys (create_tcp addr.family) addr in r.0 && listen sys r.1 backlog

abbrev pub failing : List Wanted → List Address
failing [] = []
failing ((sys, addr) ∷ addrs) = if succeeds (sys, addr) then failing addrs else addr ∷ failing addrs

-- The sockets of the addresses that succeed.
abbrev pub listening : List Wanted → List Socket
listening [] = []
listening ((sys, addr) ∷ addrs) =
    if succeeds (sys, addr)
    then (bind sys (create_tcp addr.family) addr).1 ∷ listening addrs
    else listening addrs

-- The descriptors add up over the loop.
abbrev Sums : ℕ → List Socket → Bindings → Type 0
Sums fd before r = opens fd r.2 + holds_all fd before ≡ closes fd r.2 + holds_all fd r.0

abbrev pub is_empty : List Address → Bool
is_empty [] = true
is_empty (a ∷ fails) = false
