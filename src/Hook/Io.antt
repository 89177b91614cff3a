-- ===== src/Hook/Io.antt =====
-- do_io and connect_with_timeout of src/hook/hook.cc. What the replaced calls answer, and what happens
-- while the fiber waits, is a list of attempts; what the calls do to timers and events is a list of
-- effects.
use phase.Base.{
  ℕ, ◌+◌, ◌-◌, ◌*◌, ◌/◌, ◌%◌, ◌^◌, ltb, u64_mod, Bool, not, ◌||◌, Option, none, some, List, [], ◌∷◌,
  ◌++◌, ◌==◌, if◌then◌else◌,
}
use phase.IoManager.State.{Event, read_event, write_event}
use phase.Hook.FdManager.{FdCtx, TimeoutType, so_rcvtimeo, so_sndtimeo, get_timeout, no_timeout}

-- An answer of the replaced call: a result that is not -1; -1 with an `errno` other than EINTR and
-- EAGAIN; EINTR; EAGAIN. With EAGAIN come whether addEvent is to return 0 and what
-- `tinfo->cancelled` is when the fiber goes on, which is 0 unless the timer fired.
pub data Attempt : Type 0 where
  returned : ℕ → Attempt
  failed : ℕ → Attempt
  interrupted : Attempt
  again : Bool → ℕ → Attempt

pub data Effect : Type 0 where
  called : Effect
  timer_added : ℕ → Effect
  event_added : Event → Effect
  yielded : Effect
  timer_cancelled : Effect

-- The result, or -1 with `errno`; `not_added` is -1 with whatever addEvent left there.
pub data IoResult : Type 0 where
  value : ℕ → IoResult
  error : ℕ → IoResult
  not_added : IoResult

-- EINTR, EBADF, EAGAIN and EINPROGRESS of Linux.
abbrev pub eintr : ℕ
eintr = 4

abbrev pub ebadf : ℕ
ebadf = 9

abbrev pub eagain : ℕ
eagain = 11

-- What the replaced call returns by itself.
abbrev pub raw : Attempt → IoResult
raw (returned n) = value n
raw (failed e) = error e
raw interrupted = error eintr
raw (again added cancelled) = error eagain

-- The condition timer, if there is a timeout, and its end.
abbrev pub timer_start : ℕ → List Effect
timer_start to = if to == no_timeout then [] else timer_added to ∷ []

abbrev pub timer_end : ℕ → List Effect
timer_end to = if to == no_timeout then [] else timer_cancelled ∷ []

-- The effects of an attempt that met EAGAIN, until addEvent.
abbrev pub armed_effects : ℕ → Event → List Effect
armed_effects to event = called ∷ timer_start to ++ event_added event ∷ []

-- From `retry:` on; `none`, while an answer is still to come.
unfoldable pub retry_loop :
    ℕ → Event → List Attempt → List Effect → Option (IoResult × List Effect × List Attempt)
retry_loop to event [] effects = none
retry_loop to event (returned n ∷ attempts) effects =
    some (value n, effects ++ called ∷ [], attempts)
retry_loop to event (failed e ∷ attempts) effects = some (error e, effects ++ called ∷ [], attempts)
retry_loop to event (interrupted ∷ attempts) effects =
    retry_loop to event attempts (effects ++ called ∷ [])
retry_loop to event (again added cancelled ∷ attempts) effects =
    let resumed : List Effect = armed_effects to event ++ yielded ∷ timer_end to in
    let retried = retry_loop to event attempts (effects ++ resumed) in
    if not added
    then some (not_added, effects ++ (armed_effects to event ++ timer_end to), attempts)
    else if not (cancelled == 0)
    then some (error cancelled, effects ++ resumed, attempts)
    else retried

-- One call of the replaced function.
unfoldable pub call_once : List Attempt → Option (IoResult × List Effect × List Attempt)
call_once [] = none
call_once (a ∷ attempts) = some (raw a, called ∷ [], attempts)

unfoldable pub do_io :
    Bool
    → Option FdCtx
    → Event
    → TimeoutType
    → List Attempt
    → Option (IoResult × List Effect × List Attempt)
unfolding call_once retry_loop get_timeout
do_io hook_enable none event timeout_so attempts = call_once attempts
do_io hook_enable (some ctx) event timeout_so attempts =
    if not hook_enable
    then call_once attempts
    else if ctx.is_closed
    then some (error ebadf, [], attempts)
    else if not ctx.is_socket || ctx.user_nonblock
    then call_once attempts
    else retry_loop (get_timeout ctx timeout_so) event attempts []

-- read, readv, recv, recvfrom and recvmsg.
unfoldable pub read_call :
    Bool → Option FdCtx → List Attempt → Option (IoResult × List Effect × List Attempt)
unfolding do_io
read_call hook_enable ctx attempts = do_io hook_enable ctx read_event so_rcvtimeo attempts

-- write, writev, send, sendto and sendmsg.
unfoldable pub write_call :
    Bool → Option FdCtx → List Attempt → Option (IoResult × List Effect × List Attempt)
unfolding do_io
write_call hook_enable ctx attempts = do_io hook_enable ctx write_event so_sndtimeo attempts

-- The answer of `connect_f`: 0, EINPROGRESS, or another.
pub data Connected : Type 0 where
  connected_at_once : Connected
  in_progress : Connected
  connect_failed : ℕ → Connected

-- connect_with_timeout, where `added` and `cancelled` are as for an attempt, and `so_error` is the
-- error that getsockopt tells, or `none` with its own failure's `errno`.
abbrev pub so_result : Option ℕ → ℕ → IoResult
so_result none getsockopt_errno = error getsockopt_errno
so_result (some e) getsockopt_errno = if e == 0 then value 0 else error e

abbrev pub connect_raw : Connected → IoResult
connect_raw connected_at_once = value 0
connect_raw in_progress = error 115
connect_raw (connect_failed e) = error e

unfoldable pub connect_wait : ℕ → Bool → ℕ → Option ℕ → ℕ → IoResult × List Effect
connect_wait timeout_ms added cancelled so_error getsockopt_errno =
    let waited : List Effect =
      armed_effects timeout_ms write_event ++ yielded ∷ timer_end timeout_ms in
    if not added
    then (
      so_result so_error getsockopt_errno,
      armed_effects timeout_ms write_event ++ timer_end timeout_ms,
    )
    else if not (cancelled == 0)
    then (error cancelled, waited)
    else (so_result so_error getsockopt_errno, waited)

unfoldable pub connect_with_timeout :
    Bool → Option FdCtx → ℕ → Connected → Bool → ℕ → Option ℕ → ℕ → IoResult × List Effect
unfolding connect_wait
connect_with_timeout hook_enable ctx timeout_ms answer added cancelled so_error getsockopt_errno =
    if not hook_enable then (connect_raw answer, called ∷ []) else elim ctx [
      | none ↦ (error ebadf, [])
      | some c ↦
          if c.is_closed
          then (error ebadf, [])
          else if not c.is_socket || c.user_nonblock
          then (connect_raw answer, called ∷ [])
          else elim answer [
            | in_progress ↦ connect_wait timeout_ms added cancelled so_error getsockopt_errno
            | connected_at_once ↦ (value 0, called ∷ [])
            | connect_failed e ↦ (error e, called ∷ [])
          ]
    ]

-- The timers that sleep, usleep and nanosleep add, in milliseconds, and the times they are given:
-- `unsigned` seconds, `unsigned` microseconds, and a `timespec`, whose sum goes through an `int`.
unfoldable pub sleep_ms : ℕ → ℕ
sleep_ms seconds = seconds * 1000 % 2 ^ 32

unfoldable pub usleep_ms : ℕ → ℕ
usleep_ms usec = usec / 1000

unfoldable pub nanosleep_ms : ℕ → ℕ → ℕ
nanosleep_ms sec nsec =
    let low = (sec * 1000 + nsec / 1000 / 1000) % 2 ^ 32 in
    if ltb low (2 ^ 31) then low else u64_mod - 2 ^ 32 + low
