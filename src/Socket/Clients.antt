-- ===== src/Socket/Clients.antt =====
-- The descriptors that Socket::accept of src/socket/socket.cc opens.
use phase.Base.{
  ℕ, ◌+◌, ◌≡◌, refl, arith, Bool, true, false, Option, none, some, ◌==◌, if◌then◌else◌, Bool-cases,
  Option-cases, inl, inr, [], ◌∷◌,
}
use phase.Socket.State.{
  Socket, System, no_delay, new_socket, init_sock, accept, init, get_local_address,
  get_remote_address,
}
use phase.Socket.Opening.{opens, closes, holds}

-- A descriptor that accept is given, although FdManager does not know it as an open socket.
abbrev pub unknown_to : System → Option ℕ → Option ℕ
unknown_to sys none = none
unknown_to sys (some k) = if sys.is_open_socket k then none else some k

abbrev pub client_of : Option Socket → Option ℕ
client_of none = none
client_of (some c) = c.sock

options_opens :
    (fd : ℕ) (s : Socket) (k : ℕ) → (opens fd (init_sock s k) ≡ 0) × (closes fd (init_sock s k) ≡ 0)
options_opens fd s k = by_kind (s.kind == 1)
  where
    by_kind :
        (b : Bool)
        → (opens fd (if b then no_delay k ∷ [] else []) ≡ 0)
          × (closes fd (if b then no_delay k ∷ [] else []) ≡ 0)
    by_kind true = (refl, refl)
    by_kind false = (refl, refl)

module _ (sys : System) (s : Socket) (fd : ℕ) where
  pub accept_lem :
      (opens fd (accept sys s).1
        ≡ holds fd (client_of (accept sys s).0) + holds fd (unknown_to sys (sys.sys_accept s.sock)))
      × (closes fd (accept sys s).1 ≡ 0)
  unfolding accept init
  accept_lem = elim (Option-cases (sys.sys_accept s.sock)) [
    | inl e ↦ rw (e, accept) (refl, refl)
    | inr (k, e) ↦ elim (Bool-cases (sys.is_open_socket k)) [
      | inl t ↦
          rw (e, accept, t)
            (let (none_opened, none_closed) =
                options_opens fd (new_socket s.family s.kind s.protocol) k in
              (
                unfold get_local_address get_remote_address in omega (arith, none_opened),
                none_closed,
              ))
      | inr t ↦ rw (e, accept, t) (omega arith, refl)
    ]
  ]
