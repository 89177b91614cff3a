-- ===== src/IoManager/Arming.antt =====
-- addEvent and delEvent.
use phase.Base.{
  ℕ, ◌+◌, ◌≡◌, refl, ap, sym, subst, ◌∙◌, inl, inr, Bool, true, false, not, ◌&&◌, none, some, [],
  get_elem?, Bool-cases, Option-cases,
}
use phase.IoManager.State.{
  Event, no_event, read_event, write_event, EventContext, FdContext, IoManager, has, disarm, dec64,
  put_context, del_event,
}
use phase.IoManager.Context.{enable}
use phase.IoManager.Pending.{Inv, has_in, waits, waits_at, lowered-Inv}

-- What delEvent promises of its result.
abbrev pub Deletes : IoManager → ℕ → Event → Bool → Bool × IoManager → Type 0
Deletes m fd event fails r =
    (r.0 ≡ (waits m fd event && not fails)) × Inv r.1 × ((r.1).scheduled ≡ m.scheduled)

-- The manager without the event.
abbrev deleted : IoManager → ℕ → FdContext → Event → IoManager
deleted m fd c event = record (put_context m fd (disarm c event)) {
  pending_event_count = dec64 m.pending_event_count;
}

del_missing :
    (m : IoManager) (fd : ℕ) (event : Event) (fails : Bool)
    → get_elem? m.contexts fd ≡ none
    → del_event m fd event fails ≡ (false, m)
unfolding del_event
del_missing m fd event fails e = rw (e, del_event) refl

del_idle :
    (m : IoManager) (fd : ℕ) (event : Event) (fails : Bool) (c : FdContext)
    → get_elem? m.contexts fd ≡ some c
    → has c event ≡ false
    → del_event m fd event fails ≡ (false, m)
unfolding del_event
del_idle m fd event fails c e h = rw (e, del_event) (rw h refl)

del_failed :
    (m : IoManager) (fd : ℕ) (event : Event) (c : FdContext)
    → get_elem? m.contexts fd ≡ some c
    → has c event ≡ true
    → del_event m fd event true ≡ (false, m)
unfolding del_event
del_failed m fd event c e h = rw (e, del_event) (rw h refl)

del_done :
    (m : IoManager) (fd : ℕ) (event : Event) (c : FdContext)
    → get_elem? m.contexts fd ≡ some c
    → has c event ≡ true
    → del_event m fd event false ≡ (true, deleted m fd c event)
unfolding del_event
del_done m fd event c e h = rw (e, del_event) (rw h refl)

del_here :
    (m : IoManager) (fd : ℕ) (event : Event) (fails : Bool) (c : FdContext)
    → Inv m
    → get_elem? m.contexts fd ≡ some c
    → has c event ≡ true
    → Deletes m fd event fails (del_event m fd event fails)
del_here m fd event true c v e h =
    let w : waits m fd event ≡ true = waits_at m fd event c e ∙ h in
    subst (Deletes m fd event true) (sym (del_failed m fd event c e h))
      (ap (λ b. b && false) (sym w), v, refl)
del_here m fd event false c v e h =
    let w : waits m fd event ≡ true = waits_at m fd event c e ∙ h in
    let low = lowered-Inv m fd c event [] v e h in
    subst (Deletes m fd event false) (sym (del_done m fd event c e h))
      (ap (λ b. b && true) (sym w), record { valid = low.valid; counted = low.counted }, refl)

-- With the invariant, delEvent keeps it and schedules nothing. It answers whether the event was waited
-- for and epoll_ctl did not fail.
pub del_event-Inv :
    (m : IoManager) (fd : ℕ) (event : Event) (fails : Bool)
    → Inv m
    → Deletes m fd event fails (del_event m fd event fails)
del_event-Inv m fd event fails v = elim (Option-cases (get_elem? m.contexts fd)) [
  | inl e ↦
      let w : waits m fd event ≡ false = ap (λ o. has_in o event) e in
      subst (Deletes m fd event fails) (sym (del_missing m fd event fails e))
        (ap (λ b. b && not fails) (sym w), v, refl)
  | inr (c, e) ↦ elim (Bool-cases (has c event)) [
    | inr h ↦
        let w : waits m fd event ≡ false = waits_at m fd event c e ∙ h in
        subst (Deletes m fd event fails) (sym (del_idle m fd event fails c e h))
          (ap (λ b. b && not fails) (sym w), v, refl)
    | inl h ↦ del_here m fd event fails c v e h
  ]
]

-- READ and WRITE.
abbrev pub is_real : Event → Bool
is_real no_event = false
is_real read_event = true
is_real write_event = true

-- The manager with one more event.
abbrev raised : IoManager → ℕ → FdContext → Event → EventContext → IoManager
raised m fd c event x = record (put_context m fd (enable c event x)) {
  pending_event_count = m.pending_event_count + 1;
}
