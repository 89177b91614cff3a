-- ===== src/IoManager/Dispatch.antt =====
-- cancelAll, delEvent and the dispatch of epoll's events.
use phase.Base.{
  ℕ, zero, suc, ◌≡◌, refl, ap, sym, ◌∙◌, Bool, true, false, not, ◌&&◌, ◌||◌, none, some, arith,
  List, [], ◌∷◌, ◌++◌, get_elem?, set, if◌then◌else◌, Bool-cases, inl, inr,
}
use mathlib.Core.Option.{some-injective}
use phase.IoManager.State.{
  Event, Waiter, has, read_event, write_event, FdContext, IoManager, disarm, trigger_event,
  fire_event, then_write, none_left, manager_of, fire_both, cancel_all, EpollEvent, dispatch,
}
use phase.IoManager.Context.{waiters}
use phase.IoManager.Pending.{Inv, lowered, fire_event-Fires, list_if, append_nil}

-- The waiters of the events that are wanted, READ first, and the context without these events.
abbrev pub woken : FdContext → Bool → Bool → List Waiter
woken c want_read want_write =
    list_if want_read (waiters c read_event) ++ list_if want_write (waiters c write_event)

abbrev pub left : FdContext → Bool → Bool → FdContext
left c want_read want_write =
    let c1 = if want_read then disarm c read_event else c in
    if want_write then disarm c1 write_event else c1

-- The two triggers in a row, for events that are waited for.
pub record FiresBoth (m : IoManager) (fd : ℕ) (c : FdContext) (want_read want_write : Bool)
    : Type 0 where
  pub manager : IoManager
  pub returns : fire_both m fd c want_read want_write ≡ some (left c want_read want_write, manager)
  pub valid : Inv manager
  pub wakes : manager.scheduled ≡ m.scheduled ++ woken c want_read want_write
  pub table : manager.contexts ≡ set m.contexts fd (left c want_read want_write)

wanted : (b : Bool) → (true && not b) ≡ false → b ≡ true
wanted true e = refl
wanted false e = absurd (ground (arith, e))

pub append_assoc {ℓ} : {A : Type ℓ} (l r s : List A) → (l ++ r) ++ s ≡ l ++ (r ++ s)
append_assoc [] r s = refl
append_assoc (x ∷ l) r s = ap (λ t. x ∷ t) (append_assoc l r s)

set_same :
    (cs : List FdContext) (fd : ℕ) (c : FdContext) → get_elem? cs fd ≡ some c → set cs fd c ≡ cs
set_same [] fd c e = refl
set_same (d ∷ cs) zero c e = ap (λ x. x ∷ cs) (sym (some-injective d c e))
set_same (d ∷ cs) (suc fd) c e = ap (λ r. d ∷ r) (set_same cs fd c e)

set-set : (cs : List FdContext) (fd : ℕ) (c d : FdContext) → set (set cs fd c) fd d ≡ set cs fd d
set-set [] fd c d = refl
set-set (b ∷ cs) zero c d = refl
set-set (b ∷ cs) (suc fd) c d = ap (λ r. b ∷ r) (set-set cs fd c d)

pub fire_both-FiresBoth :
    (m : IoManager) (fd : ℕ) (c : FdContext) (want_read want_write : Bool)
    → Inv m
    → get_elem? m.contexts fd ≡ some c
    → (want_read && not c.read_on) ≡ false
    → (want_write && not c.write_on) ≡ false
    → FiresBoth m fd c want_read want_write
unfolding fire_both
fire_both-FiresBoth m fd c false false v e hr hw = record {
  manager = m;
  returns = refl;
  valid = v;
  wakes = sym (append_nil m.scheduled);
  table = sym (set_same m.contexts fd c e);
}
fire_both-FiresBoth m fd c true false v e hr hw =
    let f = fire_event-Fires m fd c read_event v e (wanted c.read_on hr) in
    record {
      manager = lowered m fd c read_event (waiters c read_event);
      returns = ap (then_write (λ m' c'. fire_event m' fd c' write_event) false) f.returns;
      valid = f.valid;
      wakes = ap (λ l. m.scheduled ++ l) (sym (append_nil (waiters c read_event)));
      table = refl;
    }
fire_both-FiresBoth m fd c false true v e hr hw =
    let f = fire_event-Fires m fd c write_event v e (wanted c.write_on hw) in
    record {
      manager = lowered m fd c write_event (waiters c write_event);
      returns = f.returns;
      valid = f.valid;
      wakes = refl;
      table = refl;
    }
fire_both-FiresBoth m fd c true true v e hr hw =
    let f = fire_event-Fires m fd c read_event v e (wanted c.read_on hr) in
    let m1 = lowered m fd c read_event (waiters c read_event) in
    let c1 = disarm c read_event in
    let g = fire_event-Fires m1 fd c1 write_event f.valid f.at (wanted c.write_on hw) in
    record {
      manager = lowered m1 fd c1 write_event (waiters c write_event);
      returns =
          ap (then_write (λ m' c'. fire_event m' fd c' write_event) true) f.returns ∙ g.returns;
      valid = g.valid;
      wakes = append_assoc m.scheduled (waiters c read_event) (waiters c write_event);
      table = set-set m.contexts fd c1 (disarm c1 write_event);
    }

self_wanted : (b : Bool) → (b && not b) ≡ false
self_wanted true = refl
self_wanted false = refl

cancel_all_fires :
    (m : IoManager) (fd : ℕ) (c : FdContext)
    → get_elem? m.contexts fd ≡ some c
    → (c.read_on || c.write_on) ≡ true
    → cancel_all m fd false ≡ none_left (fire_both m fd c c.read_on c.write_on)
unfolding cancel_all
cancel_all_fires m fd c e h = rw (e, cancel_all) (rw h refl)

none_left_lem :
    (c : FdContext) (m : IoManager)
    → c.read_on ≡ false
    → c.write_on ≡ false
    → none_left (some (c, m)) ≡ some (true, m)
none_left_lem c m r w = rw (r, w) refl

none_left-left :
    (r w : Bool) (c : FdContext)
    → c.read_on ≡ r
    → c.write_on ≡ w
    → ((left c r w).read_on ≡ false) × ((left c r w).write_on ≡ false)
none_left-left false false c er ew = (er, ew)
none_left-left false true c er ew = (er, refl)
none_left-left true false c er ew = (refl, ew)
none_left-left true true c er ew = (refl, refl)

-- With the invariant, cancelAll on a context with an event passes its assertions, the last one included,
-- if epoll_ctl does not fail: it keeps the invariant, schedules the callback or the fiber of each event
-- that is waited for, READ first, and leaves none.
pub cancel_all-Inv :
    (m : IoManager) (fd : ℕ) (c : FdContext)
    → Inv m
    → get_elem? m.contexts fd ≡ some c
    → (c.read_on || c.write_on) ≡ true
    → (m' : IoManager) × (cancel_all m fd false ≡ some (true, m'))
      × Inv m'
      × (m'.scheduled ≡ m.scheduled ++ woken c c.read_on c.write_on)
      × (m'.contexts ≡ set m.contexts fd (left c c.read_on c.write_on))
cancel_all-Inv m fd c v e h =
    let f =
      fire_both-FiresBoth m fd c c.read_on c.write_on v e (self_wanted c.read_on)
        (self_wanted c.write_on) in
    let (no_read, no_write) = none_left-left c.read_on c.write_on c refl refl in
    (
      f.manager,
      cancel_all_fires m fd c e h
          ∙ ap none_left f.returns
          ∙ none_left_lem (left c c.read_on c.write_on) f.manager no_read no_write,
      f.valid,
      f.wakes,
      f.table,
    )

-- What one event of epoll asks for: EPOLLERR and EPOLLHUP stand for all that is waited for.
abbrev pub asks_read : EpollEvent → FdContext → Bool
asks_read event c = event.epoll_in || (event.err_or_hup && c.read_on)

abbrev pub asks_write : EpollEvent → FdContext → Bool
asks_write event c = event.epoll_out || (event.err_or_hup && c.write_on)

dispatch_fires :
    (m : IoManager) (fd : ℕ) (c : FdContext) (event : EpollEvent)
    → get_elem? m.contexts fd ≡ some c
    → ((c.read_on && asks_read event c) || (c.write_on && asks_write event c)) ≡ true
    → dispatch m fd event false
      ≡ manager_of (fire_both m fd c (asks_read event c) (asks_write event c))
unfolding dispatch
dispatch_fires m fd c event e h = rw (e, dispatch) (rw h refl)

-- Whether the event is acted on, and whether it asks for what is not waited for.
abbrev pub is_live : FdContext → EpollEvent → Bool → Bool
is_live c event fails =
    ((c.read_on && asks_read event c) || (c.write_on && asks_write event c)) && not fails

abbrev pub is_stale : FdContext → EpollEvent → Bool
is_stale c event = (asks_read event c && not c.read_on) || (asks_write event c && not c.write_on)

-- With the invariant, the dispatch of an event that is acted on, and asks only for what is waited for,
-- passes its assertions: it keeps the invariant, schedules who waits for what is asked for, and these
-- events are no longer waited for.
pub dispatch-Inv :
    (m : IoManager) (fd : ℕ) (c : FdContext) (event : EpollEvent)
    → Inv m
    → get_elem? m.contexts fd ≡ some c
    → ((c.read_on && asks_read event c) || (c.write_on && asks_write event c)) ≡ true
    → is_stale c event ≡ false
    → (m' : IoManager) × (dispatch m fd event false ≡ some m')
      × Inv m'
      × (m'.scheduled ≡ m.scheduled ++ woken c (asks_read event c) (asks_write event c))
      × (m'.contexts ≡ set m.contexts fd (left c (asks_read event c) (asks_write event c)))
dispatch-Inv m fd c event v e h k =
    let (hr, hw) = neither _ _ k in
    let f = fire_both-FiresBoth m fd c (asks_read event c) (asks_write event c) v e hr hw in
    (
      f.manager,
      dispatch_fires m fd c event e h ∙ ap manager_of f.returns,
      f.valid,
      f.wakes,
      f.table,
    )
  where
    neither : (a b : Bool) → (a || b) ≡ false → (a ≡ false) × (b ≡ false)
    neither false b e' = (refl, e')
    neither true b e' = absurd (ground (arith, e'))

fires_nothing :
    (m : IoManager) (fd : ℕ) (c : FdContext) (event : Event)
    → has c event ≡ false
    → fire_event m fd c event ≡ none
unfolding fire_event trigger_event
fires_nothing m fd c event h = rw (fire_event, trigger_event, h) refl

unwanted : (b : Bool) → (true && not b) ≡ true → b ≡ false
unwanted false e = refl
unwanted true e = absurd (ground (arith, e))

-- A trigger of an event that is not waited for fails its assertion.
fire_both_fails :
    (m : IoManager) (fd : ℕ) (c : FdContext) (want_read want_write : Bool)
    → Inv m
    → get_elem? m.contexts fd ≡ some c
    → ((want_read && not c.read_on) || (want_write && not c.write_on)) ≡ true
    → fire_both m fd c want_read want_write ≡ none
unfolding fire_both
fire_both_fails m fd c false false v e h = absurd (ground (arith, h))
fire_both_fails m fd c false true v e h = fires_nothing m fd c write_event (unwanted c.write_on h)
fire_both_fails m fd c true want_write v e h = elim (Bool-cases c.read_on) [
  | inr r ↦
      ap (then_write (λ m' c'. fire_event m' fd c' write_event) want_write)
        (fires_nothing m fd c read_event r)
  | inl r ↦
      let f = fire_event-Fires m fd c read_event v e r in
      let (want, off) = writes want_write c.write_on (rw r at h) in
      ap (then_write (λ m' c'. fire_event m' fd c' write_event) want_write) f.returns
      ∙ ap
          (λ b.
            then_write (λ m' c'. fire_event m' fd c' write_event) b
              (some (disarm c read_event, lowered m fd c read_event (waiters c read_event))))
          want
      ∙ fires_nothing (lowered m fd c read_event (waiters c read_event)) fd (disarm c read_event)
          write_event off
]
  where
    writes : (a b : Bool) → (a && not b) ≡ true → (a ≡ true) × (b ≡ false)
    writes true false e' = (refl, refl)
    writes true true e' = absurd (ground (arith, e'))
    writes false b e' = absurd (ground (arith, e'))

-- The dispatch of an event that is acted on and asks for what is not waited for fails the assertion of
-- triggerEvent.
pub dispatch_stale :
    (m : IoManager) (fd : ℕ) (c : FdContext) (event : EpollEvent)
    → Inv m
    → get_elem? m.contexts fd ≡ some c
    → ((c.read_on && asks_read event c) || (c.write_on && asks_write event c)) ≡ true
    → is_stale c event ≡ true
    → dispatch m fd event false ≡ none
dispatch_stale m fd c event v e h k =
    dispatch_fires m fd c event e h
    ∙ ap manager_of (fire_both_fails m fd c (asks_read event c) (asks_write event c) v e k)
