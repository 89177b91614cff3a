-- ===== src/Socket/Opening.antt =====
-- The descriptors that the methods of src/socket/socket.cc open and close.
use phase.Base.{
  ℕ, ◌+◌, ◌≡◌, refl, ap, ◌∙◌, arith, Bool, true, false, not, ◌&&◌, Option, none, some, List, [],
  ◌∷◌, ◌++◌, ◌==◌, if◌then◌else◌, if_either, Option-cases, inl, inr,
}
use phase.Socket.State.{
  Address, Socket, System, Event, opened, closed, reuse_addr, no_delay, unlinked, new_socket,
  is_valid, init_sock, closing, close, destroy, new_sock, ensure_valid, get_local_address,
  get_remote_address, on_sock, connect, reconnect, answered, bind_sock, bind,
}

-- How often a descriptor is opened, and how often it is closed.
abbrev pub opens : ℕ → List Event → ℕ
opens fd [] = 0
opens fd (opened k ∷ e) = (if k == fd then 1 else 0) + opens fd e
opens fd (closed k ∷ e) = opens fd e
opens fd (reuse_addr k ∷ e) = opens fd e
opens fd (no_delay k ∷ e) = opens fd e
opens fd (unlinked a ∷ e) = opens fd e

abbrev pub closes : ℕ → List Event → ℕ
closes fd [] = 0
closes fd (opened k ∷ e) = closes fd e
closes fd (closed k ∷ e) = (if k == fd then 1 else 0) + closes fd e
closes fd (reuse_addr k ∷ e) = closes fd e
closes fd (no_delay k ∷ e) = closes fd e
closes fd (unlinked a ∷ e) = closes fd e

abbrev pub holds : ℕ → Option ℕ → ℕ
holds fd none = 0
holds fd (some k) = if k == fd then 1 else 0

pub opens-append : (fd : ℕ) (e e' : List Event) → opens fd (e ++ e') ≡ opens fd e + opens fd e'
opens-append fd [] e' = omega arith
opens-append fd (opened k ∷ e) e' = omega (arith, opens-append fd e e')
opens-append fd (closed k ∷ e) e' = opens-append fd e e'
opens-append fd (reuse_addr k ∷ e) e' = opens-append fd e e'
opens-append fd (no_delay k ∷ e) e' = opens-append fd e e'
opens-append fd (unlinked a ∷ e) e' = opens-append fd e e'

pub closes-append : (fd : ℕ) (e e' : List Event) → closes fd (e ++ e') ≡ closes fd e + closes fd e'
closes-append fd [] e' = omega arith
closes-append fd (opened k ∷ e) e' = closes-append fd e e'
closes-append fd (closed k ∷ e) e' = omega (arith, closes-append fd e e')
closes-append fd (reuse_addr k ∷ e) e' = closes-append fd e e'
closes-append fd (no_delay k ∷ e) e' = closes-append fd e e'
closes-append fd (unlinked a ∷ e) e' = closes-append fd e e'

-- What was held and what is opened is what is closed and what is held after it.
abbrev pub Accounts : Option ℕ → List Event → Option ℕ → Type 0
Accounts before e after = (fd : ℕ) → opens fd e + holds fd before ≡ closes fd e + holds fd after

pub Accounts-append :
    (a b c : Option ℕ) (e e' : List Event)
    → Accounts a e b
    → Accounts b e' c
    → Accounts a (e ++ e') c
Accounts-append a b c e e' h k fd =
    omega (arith, h fd, k fd, opens-append fd e e', closes-append fd e e')

pub idle_Accounts : (a : Option ℕ) → Accounts a [] a
idle_Accounts a fd = refl

closing-Accounts : (a : Option ℕ) → Accounts a (closing a) none
closing-Accounts none fd = refl
closing-Accounts (some k) fd = omega arith

pub close-Accounts : (s : Socket) → Accounts s.sock (close s).2 (close s).1.sock
unfolding close
close-Accounts s =
    if_either (λ (r : Bool × Socket × List Event). Accounts s.sock r.2 r.1.sock)
      (not s.is_connected && not (is_valid s)) _ _ (λ _. idle_Accounts s.sock)
      (λ _. closing-Accounts s.sock)

pub close_sock : (s : Socket) → (close s).1.sock ≡ none
unfolding close
close_sock s = elim (Option-cases s.sock) [
  | inl e ↦
      if_either (λ (r : Bool × Socket × List Event). r.1.sock ≡ none)
        (not s.is_connected && not (is_valid s)) _ _ (λ _. e) (λ _. refl)
  | inr (fd, e) ↦
      if_either (λ (r : Bool × Socket × List Event). r.1.sock ≡ none)
        (not s.is_connected && not (is_valid s)) _ _ (λ t. valid fd e t) (λ _. refl)
]
  where
    valid :
        (fd : ℕ)
        → s.sock ≡ some fd
        → (not s.is_connected && not (is_valid s)) ≡ true
        → s.sock ≡ none
    valid fd e t = ground (arith, e, t)

-- A socket that was destroyed holds nothing.
pub destroy-Accounts : (s : Socket) → Accounts s.sock (destroy s) none
unfolding destroy
destroy-Accounts s fd =
    close-Accounts s fd ∙ ap (λ z. closes fd (close s).2 + holds fd z) (close_sock s)

init_sock-Accounts : (s : Socket) (fd : ℕ) (a : Option ℕ) → Accounts a (init_sock s fd) a
init_sock-Accounts s fd a k =
    if_either
      (λ (e : List Event).
        opens k (reuse_addr fd ∷ e) + holds k a ≡ closes k (reuse_addr fd ∷ e) + holds k a)
      (s.kind == 1) _ _ (λ _. refl) (λ _. refl)

-- A result of a method.
abbrev pub Answer : Type 0
Answer = Bool × Socket × List Event

abbrev pub Kept : Option ℕ → Answer → Type 0
Kept before r = Accounts before r.2 r.1.sock

module _ (sys : System) where
  -- A socket without a descriptor gets one, or none.
  pub new_sock-Accounts :
      (s : Socket) → s.sock ≡ none → Accounts s.sock (new_sock sys s).1 (new_sock sys s).0.sock
  unfolding new_sock
  new_sock-Accounts s none_yet = elim (Option-cases (sys.sys_socket s.family s.kind s.protocol)) [
    | inl e ↦ rw (e, new_sock) (rw none_yet (idle_Accounts none))
    | inr (fd, e) ↦
        rw (e, new_sock)
          (rw none_yet
            (λ k. let options = init_sock-Accounts s fd none k in omega (arith, options)))
  ]

  pub ensure_valid-Accounts :
      (s : Socket) → Accounts s.sock (ensure_valid sys s).1 (ensure_valid sys s).0.sock
  unfolding ensure_valid
  ensure_valid-Accounts s =
      if_either (λ (r : Socket × List Event). Accounts s.sock r.1 r.0.sock) (is_valid s) _ _
        (λ _. idle_Accounts s.sock) (λ t. new_sock-Accounts s (not_valid s t))
    where
      not_valid : (s : Socket) → is_valid s ≡ false → s.sock ≡ none
      not_valid s t = elim (Option-cases s.sock) [ inl e ↦ e | inr (fd, e) ↦ ground (arith, e, t) ]

  pub connect-Kept :
      (s : Socket) (addr : Address) (timeout : Option ℕ) → Kept s.sock (connect sys s addr timeout)
  unfolding connect get_local_address get_remote_address
  connect-Kept s addr timeout =
      let s0 : Socket = record s { remote_address = some addr } in
      let s' : Socket = (ensure_valid sys s0).0 in
      let got = ensure_valid-Accounts s0 in
      if_either (Kept s.sock) (not (is_valid (ensure_valid sys s0).0)) _ _ (λ _. got)
        (λ _.
          if_either (Kept s.sock) (not (addr.family == (ensure_valid sys s0).0.family)) _ _
            (λ _. got)
            (λ _.
              if_either (Kept s.sock)
                (on_sock sys (λ fd. sys.sys_connect fd addr timeout) (ensure_valid sys s0).0.sock) _
                _ (λ _. got)
                (λ _.
                  Accounts-append s.sock s'.sock (close s').1.sock (ensure_valid sys s0).1
                    (close s').2 got (close-Accounts s'))))

  pub reconnect-Kept : (s : Socket) (timeout : Option ℕ) → Kept s.sock (reconnect sys s timeout)
  unfolding reconnect
  reconnect-Kept s timeout = elim (Option-cases s.remote_address) [
    | inl e ↦ rw (e, reconnect) (idle_Accounts s.sock)
    | inr (addr, e) ↦
        rw (e, reconnect) (connect-Kept (record s { local_address = none }) addr timeout)
  ]

  -- Asking at a Unix address leaves nothing open.
  pub answered-Accounts : (a : Option ℕ) (addr : Address) → Accounts a (answered sys addr).1 a
  unfolding answered
  answered-Accounts a addr fd =
      if_either (λ (r : Bool × List Event). opens fd r.1 + holds fd a ≡ closes fd r.1 + holds fd a)
        asked.0 _ _ (λ _. omega (arith, gone))
        (λ _. omega (
          arith,
          gone,
          opens-append fd (asked.2 ++ destroy asked.1) (unlinked addr ∷ []),
          closes-append fd (asked.2 ++ destroy asked.1) (unlinked addr ∷ []),
        ))
    where
      asked : Answer
      asked = connect sys (new_socket 1 1 0) addr none

      gone : opens fd (asked.2 ++ destroy asked.1) ≡ closes fd (asked.2 ++ destroy asked.1)
      gone =
          let both =
            Accounts-append none asked.1.sock none asked.2 (destroy asked.1)
              (connect-Kept (new_socket 1 1 0) addr none) (destroy-Accounts asked.1) fd in
          omega (arith, both)

  bind_sock-Kept :
      (a : Option ℕ) (s : Socket) (addr : Address) (e : List Event)
      → Accounts a e s.sock
      → Kept a (bind_sock sys s addr e)
  unfolding bind_sock get_local_address
  bind_sock-Kept a s addr e h =
      if_either (Kept a) (on_sock sys (λ fd. sys.sys_bind fd addr) s.sock) _ _ (λ _. h) (λ _. h)

  pub bind-Kept : (s : Socket) (addr : Address) → Kept s.sock (bind sys s addr)
  unfolding bind
  bind-Kept s addr =
      let s0 : Socket = record s { local_address = some addr } in
      let s' : Socket = (ensure_valid sys s0).0 in
      let e = (ensure_valid sys s0).1 in
      let e' = (answered sys addr).1 in
      let got = ensure_valid-Accounts s0 in
      let more : Accounts s.sock (e ++ e') s'.sock =
        Accounts-append s.sock s'.sock s'.sock e e' got (answered-Accounts s'.sock addr) in
      if_either (Kept s.sock) (not (is_valid s')) _ _ (λ _. got)
        (λ _.
          if_either (Kept s.sock) (not (addr.family == s'.family)) _ _ (λ _. got)
            (λ _.
              if_either (Kept s.sock) (not addr.is_unix) _ _
                (λ _. bind_sock-Kept s.sock s' addr e got)
                (λ _.
                  if_either (Kept s.sock) (answered sys addr).0 _ _ (λ _. more)
                    (λ _. bind_sock-Kept s.sock s' addr (e ++ e') more))))
