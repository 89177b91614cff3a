-- ===== src/Socket/Bound.antt =====
-- The local address that a socket of src/socket/socket.cc tells of.
use phase.Base.{
  ℕ, ◌≡◌, refl, true, not, ◌&&◌, Option, some, List, [], ◌∷◌, ◌==◌, if_either, Option-cases, inl,
  inr,
}
use phase.Socket.State.{
  Address, Socket, System, Event, is_valid, close, new_sock, ensure_valid, get_local_address,
  get_remote_address, on_sock, connect, answered, bind_sock, bind,
}
use phase.Socket.Opening.{Answer}
use phase.Socket.Calls.{
  Call, to_bind, to_connect, to_reconnect, to_listen, to_accept, to_close, local_asked,
  remote_asked, run_calls,
}

-- Neither bind nor reconnect.
abbrev pub Quiet : List Call → Type 0
Quiet [] = Unit
Quiet (to_bind sys addr ∷ calls) = ⊥
Quiet (to_reconnect sys timeout ∷ calls) = ⊥
Quiet (to_connect sys addr timeout ∷ calls) = Quiet calls
Quiet (to_listen sys backlog ∷ calls) = Quiet calls
Quiet (to_accept sys ∷ calls) = Quiet calls
Quiet (to_close ∷ calls) = Quiet calls
Quiet (local_asked sys ∷ calls) = Quiet calls
Quiet (remote_asked sys ∷ calls) = Quiet calls

-- The socket has this local address.
abbrev At : Address → Socket → Type 0
At a s = s.local_address ≡ some a

module _ (a : Address) where
  get_local_address-At : (sys : System) (s : Socket) → At a s → At a (get_local_address sys s).1
  unfolding get_local_address
  get_local_address-At sys s h = rw (h, get_local_address) refl

  close-At : (s : Socket) → At a s → At a (close s).1
  unfolding close
  close-At s h =
      if_either (λ (r : Answer). At a r.1) (not s.is_connected && not (is_valid s)) _ _ (λ _. h)
        (λ _. h)

  ensure_valid-At : (sys : System) (s : Socket) → At a s → At a (ensure_valid sys s).0
  unfolding ensure_valid new_sock
  ensure_valid-At sys s h =
      if_either (λ (r : Socket × List Event). At a r.0) (is_valid s) _ _ (λ _. h) (λ _. made)
    where
      made : At a (new_sock sys s).0
      made = elim (Option-cases (sys.sys_socket s.family s.kind s.protocol)) [
        | inl e ↦ rw (e, new_sock) h
        | inr (fd, e) ↦ rw (e, new_sock) h
      ]

  connect-At :
      (sys : System) (s : Socket) (addr : Address) (timeout : Option ℕ)
      → At a s
      → At a (connect sys s addr timeout).1
  unfolding connect get_remote_address
  connect-At sys s addr timeout h =
      let s0 : Socket = record s { remote_address = some addr } in
      let s' : Socket = (ensure_valid sys s0).0 in
      let got = ensure_valid-At sys s0 h in
      if_either (λ (r : Answer). At a r.1) (not (is_valid s')) _ _ (λ _. got)
        (λ _.
          if_either (λ (r : Answer). At a r.1) (not (addr.family == s'.family)) _ _ (λ _. got)
            (λ _.
              if_either (λ (r : Answer). At a r.1)
                (on_sock sys (λ fd. sys.sys_connect fd addr timeout) s'.sock) _ _
                (λ _.
                  get_local_address-At sys
                    (get_remote_address sys (record s' { is_connected = true })).1 got)
                (λ _. close-At s' got)))

  bind_sock-At :
      (sys : System) (s : Socket) (addr : Address) (e : List Event)
      → At a s
      → At a (bind_sock sys s addr e).1
  unfolding bind_sock
  bind_sock-At sys s addr e h =
      if_either (λ (r : Answer). At a r.1) (on_sock sys (λ fd. sys.sys_bind fd addr) s.sock) _ _
        (λ _. get_local_address-At sys s h) (λ _. h)

  bind-At : (sys : System) (s : Socket) → At a (bind sys s a).1
  unfolding bind
  bind-At sys s =
      let s0 : Socket = record s { local_address = some a } in
      let s' : Socket = (ensure_valid sys s0).0 in
      let got = ensure_valid-At sys s0 refl in
      if_either (λ (r : Answer). At a r.1) (not (is_valid s')) _ _ (λ _. got)
        (λ _.
          if_either (λ (r : Answer). At a r.1) (not (a.family == s'.family)) _ _ (λ _. got)
            (λ _.
              if_either (λ (r : Answer). At a r.1) (not a.is_unix) _ _
                (λ _. bind_sock-At sys s' a _ got)
                (λ _.
                  if_either (λ (r : Answer). At a r.1) (answered sys a).0 _ _ (λ _. got)
                    (λ _. bind_sock-At sys s' a _ got))))

  run_calls-At :
      (calls : List Call) (s : Socket) → Quiet calls → At a s → At a (run_calls s calls).0
  unfolding run_calls
  run_calls-At [] s q h = h
  run_calls-At (to_bind sys addr ∷ calls) s q h = absurd q
  run_calls-At (to_reconnect sys timeout ∷ calls) s q h = absurd q
  run_calls-At (to_connect sys addr timeout ∷ calls) s q h =
      run_calls-At calls (connect sys s addr timeout).1 q (connect-At sys s addr timeout h)
  run_calls-At (to_listen sys backlog ∷ calls) s q h = run_calls-At calls s q h
  run_calls-At (to_accept sys ∷ calls) s q h = run_calls-At calls s q h
  run_calls-At (to_close ∷ calls) s q h = run_calls-At calls (close s).1 q (close-At s h)
  run_calls-At (local_asked sys ∷ calls) s q h =
      run_calls-At calls (get_local_address sys s).1 q (get_local_address-At sys s h)
  run_calls-At (remote_asked sys ∷ calls) s q h =
      run_calls-At calls (get_remote_address sys s).1 q (unfold get_remote_address in h)

-- From a bind on, whether it succeeds or not, and until the next bind or reconnect, getLocalAddress gives
-- the address that bind was given: also where the system chose another port, and after the socket was
-- closed and connected again.
pub bound_address :
    (sys later : System) (s : Socket) (a : Address) (calls : List Call)
    → Quiet calls
    → (get_local_address later (run_calls (bind sys s a).1 calls).0).0 ≡ a
unfolding get_local_address
bound_address sys later s a calls q =
    rw (run_calls-At a calls (bind sys s a).1 q (bind-At a sys s), get_local_address) refl
