-- ===== src/IoManager/IdleLaws.antt =====
-- A round of IOManager::idle in src/fiber/iomannager.cc keeps what the timers and the contexts keep.
use phase.Base.{
  ℕ, zero, suc, ◌+◌, ◌-◌, ◌%◌, ◌^◌, ◌≤◌, ◌<◌, ◌≡◌, refl, ap, ◌∙◌, arith, min, Bool, true, false,
  not, ◌&&◌, ◌||◌, Option, sym, set, subst, Bool-cases, none, some, List, [], ◌∷◌, ◌++◌, get_elem?,
  if◌then◌else◌, u64_mod, Option-cases, inl, inr,
}
use phase.Timer.State.{Callback, TimerManager, get_next_timer, list_expired_cb}
use phase.Timer.Invariant
use phase.Timer.Expiry.{Expires, list_expired_cb-Expires}
use phase.IoManager.State.{
  Waiter, FdContext, IoManager, EpollEvent, dispatch, manager_of, fire_both,
}
use phase.IoManager.Pending
use phase.IoManager.Pending.{append_nil}
use phase.IoManager.Dispatch.{
  asks_read, asks_write, is_live, is_stale, woken, left, append_assoc, dispatch-Inv, dispatch_stale,
}
use phase.IoManager.Idle.{
  Outcome, exits, goes_on, assertion_fails, max_timeout, as_int, clipped, epoll_timeout, Ready,
  tickled, ready, dispatch_all, Idle, stopping_at, idle_once,
}

near_lem : (next : ℕ) → next < 2 ^ 31 → clipped next ≡ min next max_timeout
unfolding clipped
near_lem next h = ground (arith, h)

near_int : (next : ℕ) → next < 2 ^ 31 → as_int next ≡ some next
near_int next h = ground (arith, h)

near_wait :
    (interrupted next : ℕ)
    → next < 2 ^ 31
    → epoll_timeout interrupted next ≡ some (min next max_timeout)
unfolding epoll_timeout
near_wait zero next h =
    ap as_int (near_lem next h) ∙ near_int (min next max_timeout) (omega (arith, h))
near_wait (suc interrupted) next h =
    ap (epoll_timeout interrupted) (near_lem next h)
    ∙ near_wait interrupted (min next max_timeout) (omega (arith, h))
    ∙ ap some
        (let e : min (min next max_timeout) max_timeout ≡ min next max_timeout = omega arith in e)

-- A number that is a negative int other than -1.
abbrev Far : ℕ → Type 0
Far x = (2 ^ 31 ≤ x % 2 ^ 32) × (x % 2 ^ 32 < 2 ^ 32 - 1)

clipped-Far : (x : ℕ) → Far x → (clipped x ≡ u64_mod + x % 2 ^ 32 - 2 ^ 32) × Far (clipped x)
unfolding clipped
clipped-Far x (h, k) =
    let e : clipped x ≡ u64_mod + x % 2 ^ 32 - 2 ^ 32 = ground (arith, h, k) in
    (e, (omega (arith, e, h, k), omega (arith, e, h, k)))

for_ever : (interrupted x : ℕ) → Far x → epoll_timeout interrupted x ≡ none
unfolding epoll_timeout
for_ever zero x h = let (e, (f, g)) = clipped-Far x h in ground (arith, f)
for_ever (suc interrupted) x h = let (e, f) = clipped-Far x h in for_ever interrupted (clipped x) f

unset_wait : (interrupted : ℕ) → epoll_timeout interrupted (u64_mod - 1) ≡ some max_timeout
unfolding epoll_timeout clipped
unset_wait zero = refl
unset_wait (suc interrupted) = near_wait interrupted max_timeout (omega arith)

-- The wait is five seconds where no timer is set, else at most that and at most the time until the next
-- timer, if it is due within 2^31 ms, however often it is interrupted; for one that is due between 2^31
-- and 2^32 - 2 ms from now, it is for ever.
pub epoll_timeout_lem :
    (interrupted next far : ℕ)
    → next < 2 ^ 31
    → 2 ^ 31 ≤ far
    → far < 2 ^ 32 - 1
    → (epoll_timeout interrupted (u64_mod - 1) ≡ some max_timeout)
      × (epoll_timeout interrupted next ≡ some (min next max_timeout))
      × (epoll_timeout interrupted far ≡ none)
epoll_timeout_lem interrupted next far h k l = (
  unset_wait interrupted,
  near_wait interrupted next h,
  for_ever interrupted far (omega (arith, k, l)),
)

abbrev pub after_waking : List Waiter → Option (List Waiter) → Option (List Waiter)
after_waking ws none = none
after_waking ws (some l) = some (ws ++ l)

-- Who the events wake, in turn, on the contexts as the events before leave them. It is none if an event
-- that is acted on asks for what is not waited for any more, or one belongs to no context.
abbrev pub woken_by : List FdContext → List Ready → Option (List Waiter)
woken_by cs [] = some []
woken_by cs (tickled ∷ events) = woken_by cs events
woken_by cs (ready fd event fails ∷ events) = elim (get_elem? cs fd) [
  | none ↦ none
  | some c ↦
      let passed = woken_by cs events in
      let acted = woken_by (set cs fd (left c (asks_read event c) (asks_write event c))) events in
      if not (is_live c event fails)
      then passed
      else if is_stale c event
      then none
      else after_waking (woken c (asks_read event c) (asks_write event c)) acted
]

dispatch_missing :
    (m : IoManager) (fd : ℕ) (event : EpollEvent) (fails : Bool)
    → get_elem? m.contexts fd ≡ none
    → dispatch m fd event fails ≡ none
unfolding dispatch
dispatch_missing m fd event fails e = rw (e, dispatch) refl

-- epoll_ctl fails, or nothing that is waited for is asked for: the event is passed over.
passed_over :
    (m : IoManager) (fd : ℕ) (c : FdContext) (event : EpollEvent) (fails : Bool)
    → get_elem? m.contexts fd ≡ some c
    → is_live c event fails ≡ false
    → dispatch m fd event fails ≡ some m
unfolding dispatch
passed_over m fd c event fails e h =
    rw (e, dispatch)
      (by_test ((c.read_on && asks_read event c) || (c.write_on && asks_write event c)) fails h)
  where
    by_test :
        (b fl : Bool)
        → (b && not fl) ≡ false
        → (if not b || fl
            then some m
            else manager_of (fire_both m fd c (asks_read event c) (asks_write event c)))
          ≡ some m
    by_test true true h' = refl
    by_test true false h' = absurd (ground (arith, h'))
    by_test false fl h' = refl

-- What the events make of a manager, when they wake these.
abbrev Runs : IoManager → Option IoManager → Option (List Waiter) → Type 0
Runs m none none = Unit
Runs m none (some ws) = ⊥
Runs m (some m') none = ⊥
Runs m (some m') (some ws) = Pending.Inv m' × (m'.scheduled ≡ m.scheduled ++ ws)

onwards :
    (m m1 : IoManager) (r : Option IoManager) (ws : List Waiter) (o : Option (List Waiter))
    → m1.scheduled ≡ m.scheduled ++ ws
    → Runs m1 r o
    → Runs m r (after_waking ws o)
onwards m m1 none ws none e h = tt
onwards m m1 none ws (some l) e h = h
onwards m m1 (some m') ws none e h = h
onwards m m1 (some m') ws (some l) e (v, w) =
    (v, w ∙ ap (λ x. x ++ l) e ∙ append_assoc m.scheduled ws l)

live_lem : (b fails : Bool) → (b && not fails) ≡ true → (b ≡ true) × (fails ≡ false)
live_lem true false e = (refl, refl)
live_lem true true e = absurd (ground (arith, e))
live_lem false fails e = absurd (ground (arith, e))

dispatch_all-Runs :
    (m : IoManager) (events : List Ready)
    → Pending.Inv m
    → Runs m (dispatch_all m events) (woken_by m.contexts events)
unfolding dispatch_all
dispatch_all-Runs m [] v = (v, sym (append_nil m.scheduled))
dispatch_all-Runs m (tickled ∷ events) v = dispatch_all-Runs m events v
dispatch_all-Runs m (ready fd event fails ∷ events) v =
    elim (Option-cases (get_elem? m.contexts fd)) [
      | inl e ↦ rw (dispatch_missing m fd event fails e, e, dispatch_all, woken_by) tt
      | inr (c, e) ↦ elim (Bool-cases (is_live c event fails)) [
        | inr h ↦
            rw (passed_over m fd c event fails e h, e, h, dispatch_all, woken_by)
              (dispatch_all-Runs m events v)
        | inl h ↦
            let (asks, f) = live_lem _ fails h in
            elim (Bool-cases (is_stale c event)) [
              | inl k ↦
                  rw
                    (
                      ap (dispatch m fd event) f ∙ dispatch_stale m fd c event v e asks k,
                      e,
                      h,
                      k,
                      dispatch_all,
                      woken_by,
                    )
                    tt
              | inr k ↦
                  let (m1, d, v1, w, t) = dispatch-Inv m fd c event v e asks k in
                  rw (ap (dispatch m fd event) f ∙ d, e, h, k, dispatch_all, woken_by)
                    (onwards m m1 (dispatch_all m1 events)
                      (woken c (asks_read event c) (asks_write event c)) _ w
                      (subst (λ cs. Runs m1 (dispatch_all m1 events) (woken_by cs events)) t
                        (dispatch_all-Runs m1 events v1)))
            ]
      ]
    ]

-- A round of idle that does not end it: it goes on exactly if the events wake somebody, or nobody, with
-- no failed assertion.
abbrev pub Round : Idle → ℕ → ℕ → ℕ → Outcome → Option (List Waiter) → Type 0
Round s now later p (goes_on s') (some ws) =
    Invariant.Inv s'.timers
    × Pending.Inv s'.io
    × (s'.jobs ≡ s.jobs ++ (list_expired_cb (get_next_timer s.timers now).0 later p).0)
    × Expires (get_next_timer s.timers now).0 later p
    × (s'.io.scheduled ≡ s.io.scheduled ++ ws)
Round s now later p assertion_fails none = Unit
Round s now later p (goes_on s') none = ⊥
Round s now later p assertion_fails (some ws) = ⊥
Round s now later p (exits s') o = ⊥

-- What idle makes of the manager that the events leave.
abbrev went_on : Idle → TimerManager → List (Option Callback) → Option IoManager → Outcome
went_on s after cbs none = assertion_fails
went_on s after cbs (some io) = goes_on (record { timers = after; io = io; jobs = s.jobs ++ cbs })

-- A round of idle that does not end it, with the invariants of the timers and of the contexts: it fails an
-- assertion exactly if an event that is acted on asks for what is not waited for any more, or belongs to
-- no context. Otherwise it keeps both invariants and schedules the callbacks of exactly the timers that
-- are due, as listExpiredCb returns them, and the callbacks and fibers that wait for what the events ask
-- for, in the order of the events.
pub idle_once_lem :
    (s : Idle) (scheduler_stops : Bool) (now later p : ℕ) (events : List Ready)
    → Invariant.Inv s.timers
    → Pending.Inv s.io
    → (s.timers.heap p).cb ≡ none
    → stopping_at s now scheduler_stops ≡ false
    → Round s now later p
        (idle_once s scheduler_stops now later p events)
        (woken_by s.io.contexts events)
unfolding idle_once get_next_timer
idle_once_lem s scheduler_stops now later p events v w free going =
    let timers : TimerManager = (get_next_timer s.timers now).0 in
    let fired : Expires timers later p =
      list_expired_cb-Expires timers later p (record { sorted = v.sorted; armed = v.armed }) free in
    rw (going) (
      finish (list_expired_cb timers later p).1 fired (dispatch_all s.io events)
        (woken_by s.io.contexts events) (dispatch_all-Runs s.io events w))
  where
    finish :
        (after : TimerManager)
        → Expires (get_next_timer s.timers now).0 later p
        → (r : Option IoManager) (o : Option (List Waiter)) → Runs s.io r o
        → Round s now later p
            (went_on s
              (list_expired_cb (get_next_timer s.timers now).0 later p).1
              (list_expired_cb (get_next_timer s.timers now).0 later p).0
              r)
            o
    finish after fired none none h = tt
    finish after fired none (some ws) h = h
    finish after fired (some io) none h = h
    finish after fired (some io) (some ws) (io_Inv, woke) = (fired.valid, io_Inv, refl, fired, woke)
