-- ===== src/Hook/Steps.antt =====
-- The hooked calls of src/hook/hook.cc on descriptors, one after the other: the sockets among them stay
-- non-blocking.
use phase.Base.{
  ℕ, ◌+◌, ◌*◌, ◌/◌, ◌<◌, ◌≡◌, ap, sym, subst, ◌∙◌, Bool, true, Option, none, some, set, length, ltb,
  ◌==◌, if◌then◌else◌, arith, Bool-cases, inl, inr, Option-cases, length-set, u64_mod, ◌%◌,
}
use phase.Hook.FdManager.{Os, FdCtx, FdManager, slot, del}
use phase.Hook.FdLaws.{slot-set, slot_beyond, del_lem}
use phase.Hook.Calls.{set_user_nonblock, fcntl_setfl, ioctl_fionbio, socket, close}
use phase.Hook.Calls.{setsockopt_timeout}
use phase.Hook.FdManager.{TimeoutType, so_rcvtimeo, so_sndtimeo, set_timeout}
use phase.Hook.Nonblock.{Armed, AllArmed, found-slot}

pub bounded_slot :
    (m : FdManager) (fd : ℕ) (ctx : FdCtx) → slot m.datas fd ≡ some ctx → fd < length m.datas
bounded_slot m fd ctx e = elim (Bool-cases (ltb fd (length m.datas))) [
  | inl h ↦ ground arith
  | inr h ↦ absurd (ground (arith, e, slot_beyond m.datas fd))
]

-- A slot that is written, and the others.
armed_put :
    {S : Type 0} (os : Os S) (s : S) (m : FdManager) (fd other : ℕ) (x : Option FdCtx)
    → fd < length m.datas
    → Armed os s fd x
    → Armed os s other (slot m.datas other)
    → Armed os s other (slot (set m.datas fd x) other)
armed_put os s m fd other x b here there = elim (Bool-cases (other == fd)) [
  | inl e ↦
      let same : other ≡ fd = ground arith in
      subst (λ z. Armed os s z (slot (set m.datas fd x) z)) (sym same)
        (subst (Armed os s fd) (sym (slot-set m.datas fd fd x b ∙ ground arith)) here)
  | inr e ↦
      subst (Armed os s other)
        (sym (slot-set m.datas fd other x b ∙ ap (λ z. if z then x else slot m.datas other) e))
        there
]

module _ {S : Type 0} (os : Os S) where
  -- A step of the program: a socket is opened at a descriptor without a context, by `socket` or as
  -- `accept` does; flags or a timeout are set, FIONBIO to another value than 0; a descriptor is closed.
  pub data Step (ioctl_f : S → ℕ → Bool → S) : S × FdManager → S × FdManager → Type 0 where
    opened :
        (s : S) (m : FdManager) (fd : ℕ) (s' : S) (m' : FdManager)
        → slot m.datas fd ≡ none
        → socket os true s m (some fd) ≡ some (s', m')
        → Step ioctl_f (s, m) (s', m')
    flags_set :
        (s : S) (m : FdManager) (fd arg : ℕ)
        → Step ioctl_f (s, m) ((fcntl_setfl os s m fd arg).1, (fcntl_setfl os s m fd arg).2)
    fionbio_set :
        (s : S) (m : FdManager) (fd : ℕ)
        → Step ioctl_f (s, m) (ioctl_fionbio os ioctl_f s m fd true)
    timeout_set :
        (s : S) (m : FdManager) (fd : ℕ) (type : TimeoutType) (sec usec : ℕ)
        → Step ioctl_f (s, m) (s, setsockopt_timeout true m fd type sec usec)
    closed :
        (s : S) (m : FdManager) (fd : ℕ) (in_iomanager : Bool)
        → Step ioctl_f (s, m) (s, (close true in_iomanager m fd).1)

  -- Steps from a state.
  pub data Reaches (ioctl_f : S → ℕ → Bool → S) (a : S × FdManager) : S × FdManager → Type 0 where
    at_once : Reaches ioctl_f a a
    after : (b c : S × FdManager) → Reaches ioctl_f a b → Step ioctl_f b c → Reaches ioctl_f a c

  pub set_user_nonblock-AllArmed :
      (s : S) (m : FdManager) (fd : ℕ) (v : Bool)
      → AllArmed os s m
      → AllArmed os s (set_user_nonblock m fd v)
  unfolding set_user_nonblock
  set_user_nonblock-AllArmed s m fd v a = elim (Option-cases (slot m.datas fd)) [
    | inl e ↦ rw (e, set_user_nonblock) a
    | inr (ctx, e) ↦
        rw (e, set_user_nonblock)
          record {
            bounded =
                omega (
                  arith,
                  length-set m.datas fd (some (record ctx { user_nonblock = v })),
                  a.bounded,
                );
            armed = λ other.
                armed_put os s m fd other (some (record ctx { user_nonblock = v }))
                  (bounded_slot m fd ctx e) (subst (Armed os s fd) e (a.armed fd)) (a.armed other);
          }
  ]

  set_timeout-Armed :
      (s : S) (fd : ℕ) (ctx : FdCtx) (type : TimeoutType) (v : ℕ)
      → Armed os s fd (some ctx)
      → Armed os s fd (some (set_timeout ctx type v))
  unfolding set_timeout
  set_timeout-Armed s fd ctx so_rcvtimeo v a = a
  set_timeout-Armed s fd ctx so_sndtimeo v a = a

  pub setsockopt-AllArmed :
      (s : S) (m : FdManager) (fd : ℕ) (type : TimeoutType) (sec usec : ℕ)
      → AllArmed os s m
      → AllArmed os s (setsockopt_timeout true m fd type sec usec)
  unfolding setsockopt_timeout
  setsockopt-AllArmed s m fd type sec usec a = elim (Option-cases (slot m.datas fd)) [
    | inl e ↦ rw (found-slot m fd, e, setsockopt_timeout) a
    | inr (ctx, e) ↦
        rw (found-slot m fd, e, setsockopt_timeout)
          record {
            bounded = omega (
              arith,
              length-set m.datas fd
                  (some (set_timeout ctx type ((sec * 1000 + usec / 1000) % u64_mod))),
              a.bounded,
            );
            armed = λ other.
                armed_put os s m fd other _ (bounded_slot m fd ctx e)
                  (set_timeout-Armed s fd ctx type _ (subst (Armed os s fd) e (a.armed fd)))
                  (a.armed other);
          }
  ]

  pub close-AllArmed :
      (s : S) (m : FdManager) (fd : ℕ) (in_iomanager : Bool)
      → AllArmed os s m
      → AllArmed os s (close true in_iomanager m fd).1
  unfolding close
  close-AllArmed s m fd in_iomanager a = elim (Option-cases (slot m.datas fd)) [
    | inl e ↦ rw (found-slot m fd, e, close) a
    | inr (ctx, e) ↦
        rw (found-slot m fd, e, close)
          record { bounded = (del_lem m fd 0 a.bounded).0; armed = λ other. deleted other }
  ]
    where
      deleted : (other : ℕ) → Armed os s other (slot (del m fd).datas other)
      deleted other = elim (Bool-cases (other == fd)) [
        | inl e ↦
            subst (Armed os s other)
              (sym (
                (del_lem m fd other a.bounded).1
                ∙ ap (λ z. if z then none else slot m.datas other) e))
              tt
        | inr e ↦
            subst (Armed os s other)
              (sym (
                (del_lem m fd other a.bounded).1
                ∙ ap (λ z. if z then none else slot m.datas other) e))
              (a.armed other)
      ]
