-- ===== src/Hook/Reaching.antt =====
-- A socket's descriptor stays non-blocking under src/hook/hook.cc, whatever flags are set, and F_GETFL
-- answers what F_SETFL was told.
use phase.Base.{
  ℕ, ◌≡◌, refl, ap, sym, subst, ◌∙◌, Bool, true, false, Option, none, some, set, ◌==◌,
  if◌then◌else◌, arith, Bool-cases, inl, inr, Option-cases,
}
use mathlib.Core.Option.{some-injective}
use phase.Hook.FdManager.{Os, FdCtx, FdManager, slot, has_nonblock, with_nonblock, new_ctx}
use phase.Hook.FdLaws.{slot-set, same_slot, slot-replicate, made_for, made_for_lem, get_made}
use phase.Hook.Calls.{
  found, foreign, set_user_nonblock, user_view, sys_view, with_bit, fcntl_setfl, fcntl_getfl,
  ioctl_fionbio, socket,
}
use phase.Hook.FdManager.{new_fd_manager}
use phase.Hook.Nonblock.{
  SetsFlags, SetsFionbio, Armed, AllArmed, armed_elsewhere, armed_here, new_armed, new_elsewhere,
  found-slot, has_nonblock-with_bit,
}
use phase.Hook.Steps.{
  Step, Reaches, bounded_slot, opened, flags_set, fionbio_set, timeout_set, closed, at_once, after,
  set_user_nonblock-AllArmed, setsockopt-AllArmed, close-AllArmed,
}

-- An open context of a socket is not foreign.
foreign_lem :
    {S : Type 0} (os : Os S) (s : S) (fd : ℕ) (o : Option FdCtx)
    → Armed os s fd o
    → foreign o ≡ false
    → sys_view o ≡ true
foreign_lem os s fd none a f = cc
foreign_lem os s fd (some ctx) (c, n, b) f = ground (arith, c, n, f)

foreign_armed :
    {S : Type 0} (os : Os S) (s s' : S) (fd : ℕ) (o : Option FdCtx)
    → Armed os s fd o
    → foreign o ≡ true
    → Armed os s' fd o
foreign_armed os s s' fd none a f = tt
foreign_armed os s s' fd (some ctx) (c, n, b) f = (c, n, ground (arith, c, n, f))

-- The context of `fd` after `setUserNonblock`.
user_set :
    (m : FdManager) (fd : ℕ) (v : Bool)
    → foreign (found m fd) ≡ false
    → (foreign (found (set_user_nonblock m fd v) fd) ≡ false)
      × (user_view (found (set_user_nonblock m fd v) fd) ≡ v)
unfolding set_user_nonblock
user_set m fd v f = elim (Option-cases (slot m.datas fd)) [
  | inl e ↦ absurd (ground (arith, found-slot m fd, e, f))
  | inr (ctx, e) ↦
      let kept : FdCtx = record ctx { user_nonblock = v } in
      let written : set_user_nonblock m fd v ≡ record { datas = set m.datas fd (some kept) } =
        rw (e, set_user_nonblock) refl in
      let there : found (set_user_nonblock m fd v) fd ≡ some kept =
        found-slot (set_user_nonblock m fd v) fd
        ∙ ap (λ (n : FdManager). slot n.datas fd) written
        ∙ slot-set m.datas fd fd (some kept) (bounded_slot m fd ctx e)
        ∙ same_slot fd (some kept) (slot m.datas fd) in
      (
        ap foreign there ∙ ap foreign (sym e) ∙ ap foreign (sym (found-slot m fd)) ∙ f,
        ap user_view there,
      )
]

-- F_GETFL shows the user's view.
getfl_lem :
    {S : Type 0} (os : Os S) (s : S) (m : FdManager) (fd : ℕ)
    → foreign (found m fd) ≡ false
    → has_nonblock (fcntl_getfl os s m fd) ≡ user_view (found m fd)
unfolding fcntl_getfl
getfl_lem os s m fd f =
    ap has_nonblock
      (ap (λ z. if z then os.getfl s fd else with_bit (user_view (found m fd)) (os.getfl s fd)) f)
    ∙ has_nonblock-with_bit (user_view (found m fd)) (os.getfl s fd)

module _ {S : Type 0} (os : Os S) (law : SetsFlags os) where
  -- Every context but that of `fd` stays armed, if the flag of `fd` is set.
  all_armed :
      (s : S) (m : FdManager) (fd arg : ℕ)
      → AllArmed os s m
      → Armed os (os.setfl s fd arg).1 fd (slot m.datas fd)
      → AllArmed os (os.setfl s fd arg).1 m
  all_armed s m fd arg a here = record {
    bounded = a.bounded;
    armed = λ other. elim (Bool-cases (other == fd)) [
      | inl e ↦
          let same : other ≡ fd = ground arith in
          subst (λ z. Armed os (os.setfl s fd arg).1 z (slot m.datas z)) (sym same) here
      | inr e ↦ armed_elsewhere os law s fd arg other (slot m.datas other) e (a.armed other)
    ];
  }

  fcntl-AllArmed :
      (s : S) (m : FdManager) (fd arg : ℕ)
      → AllArmed os s m
      → AllArmed os (fcntl_setfl os s m fd arg).1 (fcntl_setfl os s m fd arg).2
  unfolding fcntl_setfl
  fcntl-AllArmed s m fd arg a = elim (Bool-cases (foreign (slot m.datas fd))) [
    | inl e ↦
        rw (found-slot m fd, e)
          (all_armed s m fd arg a (foreign_armed os s _ fd (slot m.datas fd) (a.armed fd) e))
    | inr e ↦
        let set_bit : sys_view (slot m.datas fd) ≡ true =
          foreign_lem os s fd (slot m.datas fd) (a.armed fd) e in
        rw (found-slot m fd, e, set_bit)
          (set_user_nonblock-AllArmed os _ m fd (has_nonblock arg) (
            all_armed s m fd (with_nonblock arg) a (
              armed_here os law s fd (with_nonblock arg) (slot m.datas fd)
                (has_nonblock-with_bit true arg) (a.armed fd))))
  ]

  made_armed :
      (s : S) (m : FdManager) (fd : ℕ)
      → AllArmed os s m
      → AllArmed os (new_ctx os s fd).1 (made_for os s m fd)
  made_armed s m fd a = record {
    bounded = (made_for_lem os s m fd 0 a.bounded).0;
    armed = λ other. elim (Bool-cases (other == fd)) [
      | inl e ↦
          let same : other ≡ fd = ground arith in
          subst (λ z. Armed os (new_ctx os s fd).1 z (slot (made_for os s m fd).datas z)) (sym same)
            (subst (Armed os (new_ctx os s fd).1 fd)
              (sym ((made_for_lem os s m fd fd a.bounded).1 ∙ same_slot fd _ _))
              (new_armed os law s fd))
      | inr e ↦
          subst (Armed os (new_ctx os s fd).1 other)
            (sym (
              (made_for_lem os s m fd other a.bounded).1
              ∙ ap (λ z. if z then some (new_ctx os s fd).0 else slot m.datas other) e))
            (new_elsewhere os law s fd other (slot m.datas other) e (a.armed other))
    ];
  }

  socket-AllArmed :
      (s : S) (m : FdManager) (fd : ℕ)
      → slot m.datas fd ≡ none
      → AllArmed os s m
      → (s' : S) × (m' : FdManager) × (socket os true s m (some fd) ≡ some (s', m'))
        × AllArmed os s' m'
  unfolding socket
  socket-AllArmed s m fd free a = (
    (new_ctx os s fd).1,
    made_for os s m fd,
    ap (λ o. elim o [ none ↦ none | some r ↦ some (r.1, r.2) ]) (get_made os s m fd a.bounded free),
    made_armed s m fd a,
  )

  fionbio_kept :
      (ioctl_f : S → ℕ → Bool → S)
      → SetsFionbio os ioctl_f
      → (s : S) (fd other : ℕ) (o : Option FdCtx) → Armed os s other o
      → Armed os (ioctl_f s fd true) other o
  fionbio_kept ioctl_f rely s fd other none a = tt
  fionbio_kept ioctl_f rely s fd other (some ctx) (c, n, b) =
      (c, n, ground (arith, b, rely.set_nonblock s fd true other))

  fionbio-AllArmed :
      (ioctl_f : S → ℕ → Bool → S)
      → SetsFionbio os ioctl_f
      → (s : S) (m : FdManager) (fd : ℕ) → AllArmed os s m
      → AllArmed os
          (ioctl_fionbio os ioctl_f s m fd true).0
          (ioctl_fionbio os ioctl_f s m fd true).1
  unfolding ioctl_fionbio
  fionbio-AllArmed ioctl_f rely s m fd a =
      let kept : AllArmed os (ioctl_f s fd true) m = record {
        bounded = a.bounded;
        armed = λ other. fionbio_kept ioctl_f rely s fd other (slot m.datas other) (a.armed other);
      } in
      elim (Bool-cases (foreign (found m fd))) [
        | inl e ↦ rw (e, ioctl_fionbio) kept
        | inr e ↦
            rw (e, ioctl_fionbio) (set_user_nonblock-AllArmed os (ioctl_f s fd true) m fd true kept)
      ]

  step-AllArmed :
      (ioctl_f : S → ℕ → Bool → S)
      → SetsFionbio os ioctl_f
      → (a b : S × FdManager) → Step os ioctl_f a b
      → AllArmed os a.0 a.1
      → AllArmed os b.0 b.1
  step-AllArmed ioctl_f rely _ _ (opened s m fd s' m' free e) a =
      let (t, n, f, all) = socket-AllArmed s m fd free a in
      subst (λ (p : S × FdManager). AllArmed os p.0 p.1)
        (some-injective (t, n) (s', m') (sym f ∙ e)) all
  step-AllArmed ioctl_f rely _ _ (flags_set s m fd arg) a = fcntl-AllArmed s m fd arg a
  step-AllArmed ioctl_f rely _ _ (fionbio_set s m fd) a = fionbio-AllArmed ioctl_f rely s m fd a
  step-AllArmed ioctl_f rely _ _ (timeout_set s m fd type sec usec) a =
      setsockopt-AllArmed os s m fd type sec usec a
  step-AllArmed ioctl_f rely _ _ (closed s m fd in_iomanager) a =
      close-AllArmed os s m fd in_iomanager a

  reaches-AllArmed :
      (ioctl_f : S → ℕ → Bool → S)
      → SetsFionbio os ioctl_f
      → (a b : S × FdManager) → Reaches os ioctl_f a b
      → AllArmed os a.0 a.1
      → AllArmed os b.0 b.1
  reaches-AllArmed ioctl_f rely a _ at_once h = h
  reaches-AllArmed ioctl_f rely a _ (after b c r s) h =
      step-AllArmed ioctl_f rely b c s (reaches-AllArmed ioctl_f rely a b r h)

  pub reaches_armed :
      (ioctl_f : S → ℕ → Bool → S)
      → SetsFionbio os ioctl_f
      → (s : S) (b : S × FdManager) → Reaches os ioctl_f (s, new_fd_manager) b
      → AllArmed os b.0 b.1
  unfolding new_fd_manager
  reaches_armed ioctl_f rely s b r =
      reaches-AllArmed ioctl_f rely (s, new_fd_manager) b r
        record {
          bounded = omega arith;
          armed = λ other. subst (Armed os s other) (sym (slot-replicate 64 other)) tt;
        }

  setfl_lem :
      (s : S) (m : FdManager) (fd arg : ℕ)
      → AllArmed os s m
      → foreign (found m fd) ≡ false
      → fcntl_setfl os s m fd arg ≡ (
        (os.setfl s fd (with_nonblock arg)).0,
        (os.setfl s fd (with_nonblock arg)).1,
        set_user_nonblock m fd (has_nonblock arg),
      )
  unfolding fcntl_setfl
  setfl_lem s m fd arg a f =
      let slot_open : foreign (slot m.datas fd) ≡ false = ap foreign (sym (found-slot m fd)) ∙ f in
      rw (found-slot m fd, slot_open, foreign_lem os s fd (slot m.datas fd) (a.armed fd) slot_open)
        refl

  -- On the descriptor of a socket, F_GETFL answers O_NONBLOCK as F_SETFL was told, while the
  -- system has it set either way.
  pub fcntl_lem :
      (s : S) (m : FdManager) (fd arg : ℕ)
      → AllArmed os s m
      → foreign (found m fd) ≡ false
      → (has_nonblock
            (fcntl_getfl os (fcntl_setfl os s m fd arg).1 (fcntl_setfl os s m fd arg).2 fd)
          ≡ has_nonblock arg)
        × (has_nonblock (os.getfl (fcntl_setfl os s m fd arg).1 fd) ≡ true)
  fcntl_lem s m fd arg a f =
      let (shown, view) = user_set m fd (has_nonblock arg) f in
      let t : S = (os.setfl s fd (with_nonblock arg)).1 in
      let n : FdManager = set_user_nonblock m fd (has_nonblock arg) in
      (
        ap (λ (r : ℕ × S × FdManager). has_nonblock (fcntl_getfl os r.1 r.2 fd))
              (setfl_lem s m fd arg a f)
            ∙ getfl_lem os t n fd shown
            ∙ view,
        ap (λ (r : ℕ × S × FdManager). has_nonblock (os.getfl r.1 fd)) (setfl_lem s m fd arg a f)
            ∙ law.set_flags s fd (with_nonblock arg) fd
            ∙ ground (arith, has_nonblock-with_bit true arg),
      )

  -- FIONBIO goes through to the system as it is: after a socket's user sets it to 0, the context still
  -- counts the descriptor as non-blocking for the system, which has it blocking.
  pub ioctl_fionbio_lem :
      (ioctl_f : S → ℕ → Bool → S) (s : S) (m : FdManager) (fd : ℕ)
      → AllArmed os s m
      → foreign (found m fd) ≡ false
      → has_nonblock (os.getfl (ioctl_f s fd false) fd) ≡ false
      → (foreign (found (ioctl_fionbio os ioctl_f s m fd false).1 fd) ≡ false)
        × (user_view (found (ioctl_fionbio os ioctl_f s m fd false).1 fd) ≡ false)
        × (has_nonblock (os.getfl (ioctl_fionbio os ioctl_f s m fd false).0 fd) ≡ false)
  unfolding ioctl_fionbio
  ioctl_fionbio_lem ioctl_f s m fd a f blocking =
      let (shown, view) = user_set m fd false f in
      let e : ioctl_fionbio os ioctl_f s m fd false
          ≡ (ioctl_f s fd false, set_user_nonblock m fd false) =
        rw (f, ioctl_fionbio) refl in
      (
        ap (λ (r : S × FdManager). foreign (found r.1 fd)) e ∙ shown,
        ap (λ (r : S × FdManager). user_view (found r.1 fd)) e ∙ view,
        ap (λ (r : S × FdManager). has_nonblock (os.getfl r.0 fd)) e ∙ blocking,
      )
