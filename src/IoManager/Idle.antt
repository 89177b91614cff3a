-- ===== src/IoManager/Idle.antt =====
-- A round of IOManager::idle in src/fiber/iomannager.cc: the timers, epoll_wait and its events.
use phase.Base.{
  ℕ, zero, suc, ◌+◌, ◌-◌, ◌%◌, ◌^◌, min, Bool, ◌&&◌, Option, none, some, List, [], ◌∷◌, ◌++◌, ltb,
  ◌==◌, if◌then◌else◌, u64_mod,
}
use phase.Timer.State.{TimerManager, Callback, get_next_timer, list_expired_cb}
use phase.IoManager.State.{IoManager, EpollEvent, dispatch}

-- MAX_TIMEOUT, in milliseconds.
abbrev pub max_timeout : ℕ
max_timeout = 5000

-- `(int)n`, where it is not negative.
abbrev pub as_int : ℕ → Option ℕ
as_int n = if ltb (n % 2 ^ 32) (2 ^ 31) then some (n % 2 ^ 32) else none

-- What a round of the inner loop leaves in nextTimeout; a negative int becomes a large uint64_t.
unfoldable pub clipped : ℕ → ℕ
clipped next =
    if next == u64_mod - 1
    then max_timeout
    else elim (as_int next) [ some n ↦ min n max_timeout | none ↦ u64_mod + next % 2 ^ 32 - 2 ^ 32 ]

-- The timeout of epoll_wait after this many interruptions; `none` is a negative one: it waits for ever.
unfoldable pub epoll_timeout : ℕ → ℕ → Option ℕ
unfolding clipped
epoll_timeout zero next = as_int (clipped next)
epoll_timeout (suc interrupted) next = epoll_timeout interrupted (clipped next)

-- An event that epoll_wait reports: of the pipe, or of a descriptor's context, and then whether
-- epoll_ctl fails.
pub data Ready : Type 0 where
  tickled : Ready
  ready : ℕ → EpollEvent → Bool → Ready

unfoldable pub dispatch_all : IoManager → List Ready → Option IoManager
unfolding dispatch
dispatch_all m [] = some m
dispatch_all m (tickled ∷ events) = dispatch_all m events
dispatch_all m (ready fd event fails ∷ events) = elim (dispatch m fd event fails) [
  | none ↦ none
  | some m' ↦ dispatch_all m' events
]

-- The I/O manager with its timers, and the timers' callbacks that it schedules.
pub record Idle : Type 0 where
  pub timers : TimerManager
  pub io : IoManager
  pub jobs : List (Option Callback)

pub data Outcome : Type 0 where
  exits : Idle → Outcome
  goes_on : Idle → Outcome
  assertion_fails : Outcome

-- IOManager::stopping(timeout), with what Scheduler::stopping says.
unfoldable pub stopping_at : Idle → ℕ → Bool → Bool
unfolding get_next_timer
stopping_at s now scheduler_stops =
    ((get_next_timer s.timers now).1 == u64_mod - 1)
    && (s.io.pending_event_count == 0)
    && scheduler_stops

-- The round: `now` is the time of the test and `later` that of listExpiredCb, `p` a free address.
unfoldable pub idle_once : Idle → Bool → ℕ → ℕ → ℕ → List Ready → Outcome
unfolding stopping_at get_next_timer dispatch_all list_expired_cb
idle_once s scheduler_stops now later p events =
    let timers = (get_next_timer s.timers now).0 in
    let (cbs, after) = list_expired_cb timers later p in
    if stopping_at s now scheduler_stops
    then exits (record s { timers = timers })
    else elim (dispatch_all s.io events) [
      | none ↦ assertion_fails
      | some io ↦ goes_on (record { timers = after; io = io; jobs = s.jobs ++ cbs })
    ]
