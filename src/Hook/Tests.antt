-- ===== src/Hook/Tests.antt =====
-- The theorems on the hooks of src/hook at concrete descriptors.
use phase.Base.{
  ℕ, ◌≡◌, refl, Bool, true, false, none, some, List, [], ◌∷◌, ◌++◌, ◌==◌, if◌then◌else◌, replicate,
}
use phase.IoManager.State.{read_event}
use phase.Hook.FdManager.{
  Os, FdCtx, FdManager, new_fd_manager, slot, get, new_ctx, has_nonblock, with_nonblock, o_nonblock,
  get_look, get_create, no_timeout, so_rcvtimeo, get_timeout,
}
use phase.Hook.Calls.{found, foreign, socket, fcntl_setfl, fcntl_getfl}
use phase.Hook.Nonblock.{SetsFlags, SetsFionbio, AllArmed}
use phase.Hook.Steps.{Reaches, opened, at_once, after}
use phase.Hook.Reaching.{reaches_armed, fcntl_lem}
use phase.Hook.Io.{
  Attempt, returned, interrupted, again, Effect, called, event_added, yielded, timer_added,
  timer_cancelled, value, do_io, retry_loop,
}
use phase.Hook.IoLaws.{last_result, last_effects, all_waits, do_io_returns}

-- A system that is the flags of its descriptors, all of them sockets.
abbrev system : Os (ℕ → ℕ)
system = record {
  fstat = λ s fd. some true;
  getfl = λ s fd. s fd;
  setfl = λ s fd arg. (0, λ other. if other == fd then arg else s other);
}

system-SetsFlags : SetsFlags system
unfolding has_nonblock
system-SetsFlags = record { set_flags = λ s fd arg other. one_flag s fd arg (other == fd) other }
  where
    one_flag :
        (s : ℕ → ℕ) (fd arg : ℕ) (b : Bool) (other : ℕ)
        → has_nonblock (if b then arg else s other)
          ≡ (if b then has_nonblock arg else has_nonblock (s other))
    one_flag s fd arg true other = refl
    one_flag s fd arg false other = refl

-- FIONBIO of it.
abbrev system_ioctl : (ℕ → ℕ) → ℕ → Bool → ℕ → ℕ
system_ioctl s fd flag other = if other == fd then (if flag then 2048 else 0) else s other

system-SetsFionbio : SetsFionbio system system_ioctl
unfolding has_nonblock o_nonblock
system-SetsFionbio = record {
  set_nonblock = λ s fd flag other. one_flag s flag (other == fd) other;
}
  where
    one_flag :
        (s : ℕ → ℕ) (flag b : Bool) (other : ℕ)
        → has_nonblock (if b then (if flag then 2048 else 0) else s other)
          ≡ (if b then flag else has_nonblock (s other))
    one_flag s true true other = refl
    one_flag s false true other = refl
    one_flag s flag false other = refl

abbrev no_flags : ℕ → ℕ
no_flags fd = 0

-- A socket is opened at 2, and then its flags are set.
abbrev opened_ctx : FdCtx
opened_ctx = record {
  is_init = true;
  is_socket = true;
  sys_nonblock = true;
  user_nonblock = false;
  is_closed = false;
  fd = 2;
  recv_timeout = no_timeout;
  send_timeout = no_timeout;
}

abbrev opened_manager : FdManager
opened_manager = record { datas = none ∷ none ∷ some opened_ctx ∷ replicate 61 none }

abbrev armed_flags : ℕ → ℕ
armed_flags other = if other == 2 then 2048 else 0

two_free : slot new_fd_manager.datas 2 ≡ none
unfolding new_fd_manager
two_free = refl

two_opened :
    socket system true no_flags new_fd_manager (some 2) ≡ some (armed_flags, opened_manager)
unfolding new_fd_manager socket get get_look get_create new_ctx has_nonblock with_nonblock
    o_nonblock
two_opened = refl

one_step : Reaches system system_ioctl (no_flags, new_fd_manager) (armed_flags, opened_manager)
one_step =
    after _ _ at_once
      (opened no_flags new_fd_manager 2 armed_flags opened_manager two_free two_opened)

two_known : foreign (found opened_manager 2) ≡ false
unfolding found get_look
two_known = refl

opened_armed : AllArmed system armed_flags opened_manager
opened_armed =
    reaches_armed system system-SetsFlags system_ioctl system-SetsFionbio no_flags
      (armed_flags, opened_manager) one_step

fcntl_lem_example :
    (has_nonblock (
        fcntl_getfl system
          (fcntl_setfl system armed_flags opened_manager 2 1).1
          (fcntl_setfl system armed_flags opened_manager 2 1).2
          2)
      ≡ has_nonblock 1)
    × (has_nonblock (system.getfl (fcntl_setfl system armed_flags opened_manager 2 1).1 2) ≡ true)
fcntl_lem_example =
    fcntl_lem system system-SetsFlags armed_flags opened_manager 2 1 opened_armed two_known

-- FIONBIO of this system.
abbrev set_blocking : (ℕ → ℕ) → ℕ → Bool → ℕ → ℕ
set_blocking s fd flag other = if other == fd then (if flag then 2048 else 0) else s other

two_blocking : has_nonblock (system.getfl (set_blocking armed_flags 2 false) 2) ≡ false
unfolding has_nonblock o_nonblock
two_blocking = refl

-- The context with a timeout to receive.
abbrev timed_ctx : FdCtx
timed_ctx = record opened_ctx { recv_timeout = 100 }

abbrev effects : List Effect
effects =
    called
    ∷ called
    ∷ timer_added 100
    ∷ event_added read_event
    ∷ yielded
    ∷ timer_cancelled
    ∷ called
    ∷ []

-- Interrupted once, then waiting once for the event, then five bytes.
abbrev attempts : List Attempt
attempts = interrupted ∷ again true 0 ∷ []

do_io_returns_example :
    do_io true (some timed_ctx) read_event so_rcvtimeo (attempts ++ returned 5 ∷ [])
    ≡ some (
      last_result (returned 5),
      all_waits (get_timeout timed_ctx so_rcvtimeo) read_event attempts
          ++ last_effects (get_timeout timed_ctx so_rcvtimeo) read_event (returned 5),
      [],
    )
do_io_returns_example =
    do_io_returns timed_ctx read_event so_rcvtimeo attempts (returned 5) [] refl refl
      (refl, (refl, tt)) refl

five_read :
    do_io true (some timed_ctx) read_event so_rcvtimeo (attempts ++ returned 5 ∷ [])
    ≡ some (value 5, effects, [])
unfolding do_io retry_loop get_timeout
five_read = refl
