-- ===== src/Socket/State.antt =====
-- The class Socket of src/socket/socket.cc. The system's calls are arguments; what a method does to
-- descriptors is a list of events.
use phase.Base.{
  ℕ, Bool, true, false, not, ◌&&◌, Option, none, some, List, [], ◌∷◌, ◌++◌, ◌==◌, if◌then◌else◌,
}

-- An Address: its family, whether it is a UnixAddress, and the rest of it.
pub record Address : Type 0 where
  pub family : ℕ
  pub is_unix : Bool
  pub body : List ℕ

-- `sock` is `none` for -1.
pub record Socket : Type 0 where
  pub sock : Option ℕ
  pub family : ℕ
  pub kind : ℕ
  pub protocol : ℕ
  pub is_connected : Bool
  pub local_address : Option Address
  pub remote_address : Option Address

-- What the calls of the system answer; a call that succeeds answers `true`, or what it gives.
pub record System : Type 0 where
  pub sys_socket : ℕ → ℕ → ℕ → Option ℕ
  pub sys_bind : ℕ → Address → Bool
  pub sys_connect : ℕ → Address → Option ℕ → Bool
  pub sys_listen : ℕ → ℕ → Bool
  pub sys_accept : Option ℕ → Option ℕ
  pub getsockname : Option ℕ → Option Address
  pub getpeername : Option ℕ → Option Address
  -- The context that FdManager has for a descriptor is that of a socket that is not closed.
  pub is_open_socket : ℕ → Bool

pub data Event : Type 0 where
  opened : ℕ → Event
  closed : ℕ → Event
  reuse_addr : ℕ → Event
  no_delay : ℕ → Event
  unlinked : Address → Event

abbrev pub new_socket : ℕ → ℕ → ℕ → Socket
new_socket family kind protocol = record {
  sock = none;
  family = family;
  kind = kind;
  protocol = protocol;
  is_connected = false;
  local_address = none;
  remote_address = none;
}

abbrev pub is_valid : Socket → Bool
is_valid s = elim s.sock [ none ↦ false | some fd ↦ true ]

-- The options of initSock; SOCK_STREAM is 1.
abbrev pub init_sock : Socket → ℕ → List Event
init_sock s fd = reuse_addr fd ∷ (if s.kind == 1 then no_delay fd ∷ [] else [])

abbrev pub unknown_address : ℕ → Address
unknown_address family = record { family = family; is_unix = false; body = [] }

abbrev pub or_known : Option Address → ℕ → Option Address → Address
or_known (some a) family asked = a
or_known none family (some a) = a
or_known none family none = unknown_address family

abbrev pub first_known : Option Address → Option Address → Option Address
first_known (some a) asked = some a
first_known none asked = asked

-- What close does to the descriptor.
abbrev pub closing : Option ℕ → List Event
closing none = []
closing (some fd) = closed fd ∷ []

unfoldable pub close : Socket → Bool × Socket × List Event
close s =
    if not s.is_connected && not (is_valid s)
    then (true, s, [])
    else (false, record s { is_connected = false; sock = none }, closing s.sock)

-- The destructor.
unfoldable pub destroy : Socket → List Event
unfolding close
destroy s = (close s).2

module _ (sys : System) where
  unfoldable pub new_sock : Socket → Socket × List Event
  new_sock s = elim (sys.sys_socket s.family s.kind s.protocol) [
    | none ↦ (record s { sock = none }, [])
    | some fd ↦ (record s { sock = some fd }, opened fd ∷ init_sock s fd)
  ]

  -- The descriptor of a socket that has none yet.
  unfoldable pub ensure_valid : Socket → Socket × List Event
  unfolding new_sock
  ensure_valid s = if is_valid s then (s, []) else new_sock s

  -- The address, and the socket that remembers it.
  unfoldable pub get_local_address : Socket → Address × Socket
  get_local_address s = (
    or_known s.local_address s.family (sys.getsockname s.sock),
    record s { local_address = first_known s.local_address (sys.getsockname s.sock) },
  )

  unfoldable pub get_remote_address : Socket → Address × Socket
  get_remote_address s = (
    or_known s.remote_address s.family (sys.getpeername s.sock),
    record s { remote_address = first_known s.remote_address (sys.getpeername s.sock) },
  )

  -- What the system says of the socket's descriptor.
  abbrev pub on_sock : (ℕ → Bool) → Option ℕ → Bool
  on_sock call none = false
  on_sock call (some fd) = call fd

  unfoldable pub connect : Socket → Address → Option ℕ → Bool × Socket × List Event
  unfolding ensure_valid close get_local_address get_remote_address
  connect s addr timeout =
      let (s', e) = ensure_valid (record s { remote_address = some addr }) in
      if not (is_valid s')
      then (false, s', e)
      else if not (addr.family == s'.family)
      then (false, s', e)
      else if on_sock (λ fd. sys.sys_connect fd addr timeout) s'.sock
      then (
        true,
        (get_local_address (get_remote_address (record s' { is_connected = true })).1).1,
        e,
      )
      else (false, (close s').1, e ++ (close s').2)

  unfoldable pub reconnect : Socket → Option ℕ → Bool × Socket × List Event
  unfolding connect
  reconnect s timeout = elim s.remote_address [
    | none ↦ (false, s, [])
    | some addr ↦ connect (record s { local_address = none }) addr timeout
  ]

  -- Whether another socket answers at a Unix address, and what asking does; AF_UNIX and SOCK_STREAM are 1.
  unfoldable pub answered : Address → Bool × List Event
  unfolding connect destroy
  answered addr =
      let (taken, t, e) = connect (new_socket 1 1 0) addr none in
      if taken then (true, e ++ destroy t) else (false, e ++ destroy t ++ unlinked addr ∷ [])

  unfoldable pub bind_sock : Socket → Address → List Event → Bool × Socket × List Event
  unfolding get_local_address
  bind_sock s addr e =
      if on_sock (λ fd. sys.sys_bind fd addr) s.sock
      then (true, (get_local_address s).1, e)
      else (false, s, e)

  unfoldable pub bind : Socket → Address → Bool × Socket × List Event
  unfolding ensure_valid answered bind_sock
  bind s addr =
      let (s', e) = ensure_valid (record s { local_address = some addr }) in
      let (taken, e') = answered addr in
      if not (is_valid s')
      then (false, s', e)
      else if not (addr.family == s'.family)
      then (false, s', e)
      else if not addr.is_unix
      then bind_sock s' addr e
      else if taken
      then (false, s', e ++ e')
      else bind_sock s' addr (e ++ e')

  unfoldable pub listen : Socket → ℕ → Bool
  listen s backlog = is_valid s && on_sock (λ fd. sys.sys_listen fd backlog) s.sock

  -- Socket::init on a new socket.
  unfoldable pub init : Socket → ℕ → Option (Socket × List Event)
  unfolding get_local_address get_remote_address
  init s fd =
      if sys.is_open_socket fd
      then some (
        (get_remote_address
            (get_local_address (record s { sock = some fd; is_connected = true })).1).1,
        init_sock s fd,
      )
      else none

  -- The client's socket, unless it is a null pointer.
  unfoldable pub accept : Socket → Option Socket × List Event
  unfolding init
  accept s = elim (sys.sys_accept s.sock) [
    | none ↦ (none, [])
    | some fd ↦ elim (init (new_socket s.family s.kind s.protocol) fd) [
      | none ↦ (none, opened fd ∷ [])
      | some (client, e) ↦ (some client, opened fd ∷ e)
    ]
  ]

-- send, sendTo, recv and recvFrom: the call is made on a connected socket only; `none` is -1.
unfoldable pub if_connected : (Option ℕ → Option ℕ) → Socket → Option ℕ
if_connected call s = if s.is_connected then call s.sock else none

-- CreateTCP, CreateTCPSocket and the like; SOCK_STREAM is 1 and SOCK_DGRAM 2.
abbrev pub create_tcp : ℕ → Socket
create_tcp family = new_socket family 1 0

unfoldable pub create_udp : System → ℕ → Socket × List Event
unfolding new_sock
create_udp sys family =
    let (s, e) = new_sock sys (new_socket family 2 0) in (record s { is_connected = true }, e)
