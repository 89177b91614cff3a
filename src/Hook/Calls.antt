-- ===== src/Hook/Calls.antt =====
-- The hooked calls of src/hook/hook.cc that change a descriptor's context: socket, close, fcntl, ioctl
-- and setsockopt. The calls that they replace are arguments.
use phase.Base.{
  ℕ, ◌+◌, ◌*◌, ◌/◌, Bool, true, false, not, ◌||◌, Option, none, some, set, if◌then◌else◌, u64_mod,
  ◌%◌,
}
use phase.Hook.FdManager.{
  Os, FdCtx, FdManager, slot, Looked, answer, absent, get_look, get, del, has_nonblock,
  with_nonblock, without_nonblock, TimeoutType, set_timeout,
}

-- `get(fd)`, which makes no context.
abbrev pub found_by : Looked → Option FdCtx
found_by (answer ctx) = ctx
found_by absent = none

unfoldable pub found : FdManager → ℕ → Option FdCtx
unfolding get_look
found m fd = found_by (get_look m fd false)

-- `!ctx || ctx->isClose() || !ctx->isSocket()`.
abbrev pub foreign : Option FdCtx → Bool
foreign none = true
foreign (some ctx) = ctx.is_closed || not ctx.is_socket

-- `setUserNonblock(v)` on the context of `fd`.
unfoldable pub set_user_nonblock : FdManager → ℕ → Bool → FdManager
set_user_nonblock m fd v = elim (slot m.datas fd) [
  | none ↦ m
  | some ctx ↦ record { datas = set m.datas fd (some (record ctx { user_nonblock = v })) }
]

-- What a context says of the user's view and of the system's.
abbrev pub user_view : Option FdCtx → Bool
user_view none = false
user_view (some ctx) = ctx.user_nonblock

abbrev pub sys_view : Option FdCtx → Bool
sys_view none = false
sys_view (some ctx) = ctx.sys_nonblock

abbrev pub with_bit : Bool → ℕ → ℕ
with_bit v arg = if v then with_nonblock arg else without_nonblock arg

module _ {S : Type 0} (os : Os S) where
  -- fcntl(fd, F_SETFL, arg).
  unfoldable pub fcntl_setfl : S → FdManager → ℕ → ℕ → ℕ × S × FdManager
  unfolding found has_nonblock set_user_nonblock with_nonblock without_nonblock
  fcntl_setfl s m fd arg =
      if foreign (found m fd) then ((os.setfl s fd arg).0, (os.setfl s fd arg).1, m) else (
        (os.setfl s fd (with_bit (sys_view (found m fd)) arg)).0,
        (os.setfl s fd (with_bit (sys_view (found m fd)) arg)).1,
        set_user_nonblock m fd (has_nonblock arg),
      )

  -- fcntl(fd, F_GETFL).
  unfoldable pub fcntl_getfl : S → FdManager → ℕ → ℕ
  unfolding found with_nonblock without_nonblock
  fcntl_getfl s m fd =
      if foreign (found m fd)
      then os.getfl s fd
      else with_bit (user_view (found m fd)) (os.getfl s fd)

  -- ioctl(d, FIONBIO, &flag); `ioctl_f` is the replaced call at this request.
  unfoldable pub ioctl_fionbio : (S → ℕ → Bool → S) → S → FdManager → ℕ → Bool → S × FdManager
  unfolding found set_user_nonblock
  ioctl_fionbio ioctl_f s m fd flag =
      if foreign (found m fd)
      then (ioctl_f s fd flag, m)
      else (ioctl_f s fd flag, set_user_nonblock m fd flag)

  -- socket(...), where `socket_f` returned `fd`, `none` for -1. The first `none` of the result is a
  -- write out of the table's bounds.
  unfoldable pub socket : Bool → S → FdManager → Option ℕ → Option (S × FdManager)
  unfolding get
  socket hook_enable s m none = some (s, m)
  socket hook_enable s m (some fd) =
      if not hook_enable
      then some (s, m)
      else elim (get os s m (some fd) true) [ none ↦ none | some r ↦ some (r.1, r.2) ]

-- close(fd): whether the events of `fd` are cancelled, and the table.
unfoldable pub close : Bool → Bool → FdManager → ℕ → Bool × FdManager
unfolding found del
close hook_enable in_iomanager m fd =
    if not hook_enable
    then (false, m)
    else elim (found m fd) [ none ↦ (false, m) | some ctx ↦ (in_iomanager, del m fd) ]

-- setsockopt(fd, SOL_SOCKET, SO_RCVTIMEO or SO_SNDTIMEO, v), with `v` in seconds and microseconds.
unfoldable pub setsockopt_timeout : Bool → FdManager → ℕ → TimeoutType → ℕ → ℕ → FdManager
unfolding found set_timeout
setsockopt_timeout hook_enable m fd type sec usec =
    if not hook_enable then m else elim (found m fd) [
      | none ↦ m
      | some ctx ↦ record {
        datas = set m.datas fd (some (set_timeout ctx type ((sec * 1000 + usec / 1000) % u64_mod)));
      }
    ]
