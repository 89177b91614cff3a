-- ===== src/IoManager/State.antt =====
-- FdContext and IOManager, and the operations on events. A failed assertion, or a use of a null pointer,
-- is `none`; whether a call of epoll_ctl fails is an argument.
use phase.Base.{
  ℕ, zero, suc, ◌+◌, ◌-◌, ◌*◌, ◌/◌, Bool, true, false, not, ◌&&◌, ◌||◌, Option, none, some, List,
  [], ◌∷◌, ◌++◌, length, get_elem?, set, take, ltb, ◌==◌, if◌then◌else◌, u64_mod,
}

-- NONE, READ and WRITE; a mask of them is the two flags `read_on` and `write_on` of a context.
pub data Event : Type 0 where
  no_event read_event write_event : Event

-- What is handed to a scheduler.
pub data Waiter : Type 0 where
  callback fiber : ℕ → Waiter

pub record EventContext : Type 0 where
  pub scheduler : Option ℕ
  pub fiber : Option ℕ
  pub cb : Option ℕ

pub record FdContext : Type 0 where
  pub read : EventContext
  pub write : EventContext
  pub fd : ℕ
  pub read_on : Bool
  pub write_on : Bool

pub record IoManager : Type 0 where
  pub contexts : List FdContext
  pub pending_event_count : ℕ
  pub scheduled : List Waiter

abbrev pub empty_context : EventContext
empty_context = record { scheduler = none; fiber = none; cb = none }

abbrev pub new_context : ℕ → FdContext
new_context fd = record {
  read = empty_context;
  write = empty_context;
  fd = fd;
  read_on = false;
  write_on = false;
}

-- `events & event`.
abbrev pub has : FdContext → Event → Bool
has c no_event = false
has c read_event = c.read_on
has c write_event = c.write_on

-- `events | event` and `events & ~event`.
abbrev pub mark : FdContext → Event → Bool → FdContext
mark c no_event b = c
mark c read_event b = record c { read_on = b }
mark c write_event b = record c { write_on = b }

unfoldable pub get_event_context : FdContext → Event → Option EventContext
get_event_context c no_event = none
get_event_context c read_event = some c.read
get_event_context c write_event = some c.write

abbrev pub put_event_context : FdContext → Event → EventContext → FdContext
put_event_context c no_event x = c
put_event_context c read_event x = record c { read = x }
put_event_context c write_event x = record c { write = x }

-- The context without an event and what waits for it.
abbrev pub disarm : FdContext → Event → FdContext
disarm c event = put_event_context (mark c event false) event empty_context

-- What `ctx.scheduler->schedule` gets.
abbrev pub waiter_of : EventContext → List Waiter
waiter_of x = elim x.cb [
  | some f ↦ callback f ∷ []
  | none ↦ elim x.fiber [ none ↦ [] | some f ↦ fiber f ∷ [] ]
]

-- FdContext::triggerEvent: the context, and what was scheduled.
unfoldable pub trigger_event : FdContext → Event → Option (FdContext × List Waiter)
unfolding get_event_context
trigger_event c event = if not (has c event) then none else elim (get_event_context c event) [
  | none ↦ none
  | some x ↦ elim x.scheduler [ none ↦ none | some s ↦ some (disarm c event, waiter_of x) ]
]

abbrev pub new_contexts : ℕ → ℕ → List FdContext
new_contexts from zero = []
new_contexts from (suc n) = new_context from ∷ new_contexts (suc from) n

-- `m_fdContexts.resize(size)`, with a new context in each new slot.
unfoldable pub context_resize : List FdContext → ℕ → List FdContext
context_resize cs size = take size cs ++ new_contexts (length cs) (size - length cs)

abbrev pub dec64 : ℕ → ℕ
dec64 n = if n == 0 then u64_mod - 1 else n - 1

abbrev pub put_context : IoManager → ℕ → FdContext → IoManager
put_context m fd c = record m { contexts = set m.contexts fd c }

-- `!eventCtx.scheduler && !eventCtx.fiber && !eventCtx.cb`.
abbrev pub is_free : EventContext → Bool
is_free x = elim x.scheduler [
  | some s ↦ false
  | none ↦ elim x.fiber [ some f ↦ false | none ↦ elim x.cb [ some f ↦ false | none ↦ true ] ]
]

-- The assertion that the fiber that is to wait is in EXEC; with a callback there is none.
abbrev pub may_wait : EventContext → Bool → Bool
may_wait x executing = elim x.cb [ some f ↦ true | none ↦ executing ]

-- addEvent from the lock of the context on: 0 is `true`, -1 `false`.
unfoldable pub arm :
    IoManager → ℕ → FdContext → Event → Bool → Bool → EventContext → Option (Bool × IoManager)
unfolding get_event_context
arm m fd c event epoll_fails executing x =
    if has c event
    then none
    else if epoll_fails
    then some (false, m)
    else elim (get_event_context c event) [
      | none ↦ none
      | some old ↦
          if not (is_free old && may_wait x executing)
          then none
          else some (
            true,
            record (put_context m fd (put_event_context (mark c event true) event x)) {
              pending_event_count = m.pending_event_count + 1;
            },
          )
    ]

-- The event context that addEvent fills in: `waiting` is the running fiber, if there is no callback.
abbrev pub filled : ℕ → ℕ → Option ℕ → EventContext
filled scheduler waiting cb = record {
  scheduler = some scheduler;
  fiber = elim cb [ none ↦ some waiting | some f ↦ none ];
  cb = cb;
}

-- The first part of addEvent: the table, with a context for `fd`.
unfoldable pub with_context : IoManager → ℕ → IoManager
unfolding context_resize
with_context m fd =
    if ltb fd (length m.contexts)
    then m
    else record m { contexts = context_resize m.contexts (fd * 3 / 2) }

abbrev pub arm_in :
    Option FdContext
    → IoManager
    → ℕ
    → Event
    → Bool
    → Bool
    → EventContext
    → Option (Bool × IoManager)
arm_in none m fd event epoll_fails executing x = none
arm_in (some c) m fd event epoll_fails executing x = arm m fd c event epoll_fails executing x

unfoldable pub add_event :
    IoManager → ℕ → Event → Bool → Bool → ℕ → ℕ → Option ℕ → Option (Bool × IoManager)
unfolding arm with_context
add_event m fd event epoll_fails executing scheduler waiting cb =
    let m' = with_context m fd in
    arm_in (get_elem? m'.contexts fd) m' fd event epoll_fails executing
      (filled scheduler waiting cb)

unfoldable pub del_event : IoManager → ℕ → Event → Bool → Bool × IoManager
del_event m fd event epoll_fails = elim (get_elem? m.contexts fd) [
  | none ↦ (false, m)
  | some c ↦ if not (has c event) || epoll_fails then (false, m) else (
    true,
    record (put_context m fd (disarm c event)) {
      pending_event_count = dec64 m.pending_event_count;
    },
  )
]

-- A trigger of an event of the context at `fd`, and the count.
unfoldable pub fire_event : IoManager → ℕ → FdContext → Event → Option (FdContext × IoManager)
unfolding trigger_event
fire_event m fd c event = elim (trigger_event c event) [
  | none ↦ none
  | some r ↦ some (
    r.0,
    record (put_context m fd r.0) {
      pending_event_count = dec64 m.pending_event_count;
      scheduled = m.scheduled ++ r.1;
    },
  )
]

-- `true`, when the trigger passed its assertions.
abbrev pub answered : Option (FdContext × IoManager) → Option (Bool × IoManager)
answered none = none
answered (some r) = some (true, r.1)

unfoldable pub cancel_event : IoManager → ℕ → Event → Bool → Option (Bool × IoManager)
unfolding fire_event
cancel_event m fd event epoll_fails = elim (get_elem? m.contexts fd) [
  | none ↦ some (false, m)
  | some c ↦
      if not (has c event) || epoll_fails
      then some (false, m)
      else answered (fire_event m fd c event)
]

-- The two triggers of cancelAll and of idle: READ and WRITE, each if it is wanted.
abbrev pub then_write :
    (IoManager → FdContext → Option (FdContext × IoManager))
    → Bool
    → Option (FdContext × IoManager)
    → Option (FdContext × IoManager)
then_write fire want none = none
then_write fire want (some r) = if want then fire r.1 r.0 else some r

unfoldable pub fire_both : IoManager → ℕ → FdContext → Bool → Bool → Option (FdContext × IoManager)
unfolding fire_event
fire_both m fd c want_read want_write =
    then_write (λ m' c'. fire_event m' fd c' write_event) want_write
      (if want_read then fire_event m fd c read_event else some (c, m))

-- The assertion at the end of cancelAll.
abbrev pub none_left : Option (FdContext × IoManager) → Option (Bool × IoManager)
none_left none = none
none_left (some r) = if (r.0).read_on || (r.0).write_on then none else some (true, r.1)

unfoldable pub cancel_all : IoManager → ℕ → Bool → Option (Bool × IoManager)
unfolding fire_both
cancel_all m fd epoll_fails = elim (get_elem? m.contexts fd) [
  | none ↦ some (false, m)
  | some c ↦
      if not (c.read_on || c.write_on) || epoll_fails
      then some (false, m)
      else none_left (fire_both m fd c c.read_on c.write_on)
]

-- What epoll_wait reports: EPOLLIN, EPOLLOUT, and EPOLLERR or EPOLLHUP.
pub record EpollEvent : Type 0 where
  pub epoll_in : Bool
  pub epoll_out : Bool
  pub err_or_hup : Bool

abbrev pub manager_of : Option (FdContext × IoManager) → Option IoManager
manager_of none = none
manager_of (some r) = some r.1

-- The body of the loop of idle over the events, for one of a context.
unfoldable pub dispatch : IoManager → ℕ → EpollEvent → Bool → Option IoManager
unfolding fire_both
dispatch m fd event epoll_fails = elim (get_elem? m.contexts fd) [
  | none ↦ none
  | some c ↦
      let real_read = event.epoll_in || (event.err_or_hup && c.read_on) in
      let real_write = event.epoll_out || (event.err_or_hup && c.write_on) in
      if not ((c.read_on && real_read) || (c.write_on && real_write)) || epoll_fails
      then some m
      else manager_of (fire_both m fd c real_read real_write)
]
