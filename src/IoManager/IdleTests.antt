-- ===== src/IoManager/IdleTests.antt =====
-- A round of IOManager::idle at concrete timers and events.
use phase.Base.{◌-◌, ◌≡◌, refl, arith, min, true, false, none, some, [], ◌∷◌, List, u64_mod}
use phase.Timer.State.{
  plain, TimerManager, new_manager, add_timer, add_timer_locked, get_next_timer,
}
use phase.Timer.Invariant
use phase.IoManager.State.{fiber, FdContext, IoManager, empty_context, new_context}
use phase.IoManager.Pending
use phase.IoManager.Idle.{
  max_timeout, epoll_timeout, Ready, tickled, ready, Idle, stopping_at, idle_once,
}
use phase.IoManager.IdleLaws.{Round, woken_by, epoll_timeout_lem, idle_once_lem}

-- A timer at address 7 that is due at 150, and fiber 5 that waits to write descriptor 1.
abbrev timers : TimerManager
timers = add_timer (new_manager 100) 100 7 50 (some (plain 1)) false

timers-Inv : Invariant.Inv timers
timers-Inv =
    (Invariant.add_timer-Inv (new_manager 100) 100 7 50 (plain 1) false
      (record { sorted = tt; armed = λ x. refl }) refl).0

abbrev writer : FdContext
writer = record {
  read = empty_context;
  write = record { scheduler = some 1; fiber = some 5; cb = none };
  fd = 1;
  read_on = false;
  write_on = true;
}

abbrev table : IoManager
table = record { contexts = new_context 0 ∷ writer ∷ []; pending_event_count = 1; scheduled = [] }

table-Inv : Pending.Inv table
table-Inv = record { valid = (refl, (refl, tt)); counted = unfold Pending.all_armed in refl }

abbrev state : Idle
state = record { timers = timers; io = table; jobs = [] }

-- The pipe, and a hang-up of descriptor 1.
abbrev events : List Ready
events =
    tickled ∷ ready 1 (record { epoll_in = false; epoll_out = false; err_or_hup = true }) false ∷ []

free_four : (timers.heap 4).cb ≡ none
unfolding add_timer add_timer_locked
free_four = refl

not_stopping : stopping_at state 120 true ≡ false
unfolding stopping_at get_next_timer add_timer add_timer_locked
not_stopping = refl

idle_once_lem_example :
    Round state 120 150 4 (idle_once state true 120 150 4 events) (woken_by table.contexts events)
idle_once_lem_example =
    idle_once_lem state true 120 150 4 events timers-Inv table-Inv free_four not_stopping

-- Fiber 5 is woken.
wakes_five : woken_by table.contexts events ≡ some (fiber 5 ∷ [])
wakes_five = refl

epoll_timeout_lem_example :
    (epoll_timeout 2 (u64_mod - 1) ≡ some max_timeout)
    × (epoll_timeout 2 30 ≡ some (min 30 max_timeout))
    × (epoll_timeout 2 3000000000 ≡ none)
epoll_timeout_lem_example =
    epoll_timeout_lem 2 30 3000000000 (omega arith) (omega arith) (omega arith)
