-- ===== src/Hook/FdManager.antt =====
-- FdCtx and FdManager of src/hook/FdManager.cc and src/hook/include/FdManager.h. The system is an
-- argument. An `int` of flags is its pattern of 32 bits; a file descriptor is a number, or -1.
use phase.Base.{
  ℕ, zero, suc, ◌-◌, ◌*◌, ◌/◌, ◌^◌, Bool, true, false, not, ◌||◌, Option, none, some, List, [], ◌∷◌,
  ◌++◌, bit_and, bit_or, length, set, replicate, ltb, leb, ◌==◌, if◌then◌else◌, u64_mod,
}

-- The system calls that are made on a descriptor's status: `fstat`, whether it is a socket or `none`
-- for a failure, and `fcntl` with F_GETFL and F_SETFL.
pub record Os (S : Type 0) : Type 0 where
  pub fstat : S → ℕ → Option Bool
  pub getfl : S → ℕ → ℕ
  pub setfl : S → ℕ → ℕ → ℕ × S

pub record FdCtx : Type 0 where
  pub is_init : Bool
  pub is_socket : Bool
  pub sys_nonblock : Bool
  pub user_nonblock : Bool
  pub is_closed : Bool
  pub fd : ℕ
  pub recv_timeout : ℕ
  pub send_timeout : ℕ

-- O_NONBLOCK of Linux, 04000.
abbrev pub nonblock_bit : ℕ
nonblock_bit = 11

unfoldable pub o_nonblock : ℕ
o_nonblock = 2 ^ nonblock_bit

-- `flags & O_NONBLOCK`, as a truth value.
unfoldable pub has_nonblock : ℕ → Bool
unfolding o_nonblock
has_nonblock flags = not (bit_and flags o_nonblock == 0)

-- `flags | O_NONBLOCK` and `flags & ~O_NONBLOCK`.
unfoldable pub with_nonblock : ℕ → ℕ
unfolding o_nonblock
with_nonblock flags = bit_or flags o_nonblock

unfoldable pub without_nonblock : ℕ → ℕ
unfolding o_nonblock
without_nonblock flags = flags - bit_and flags o_nonblock

-- -1 as a `uint64_t`.
abbrev pub no_timeout : ℕ
no_timeout = u64_mod - 1

abbrev pub is_some {ℓ} : {A : Type ℓ} → Option A → Bool
is_some none = false
is_some (some a) = true

abbrev pub socket_by : Option Bool → Bool
socket_by none = false
socket_by (some b) = b

module _ {S : Type 0} (os : Os S) where
  -- The constructor and `init`, which makes a socket non-blocking.
  unfoldable pub new_ctx : S → ℕ → FdCtx × S
  unfolding has_nonblock with_nonblock
  new_ctx s fd =
      let stat = os.fstat s fd in
      (
        record {
          is_init = is_some stat;
          is_socket = socket_by stat;
          sys_nonblock = socket_by stat;
          user_nonblock = false;
          is_closed = false;
          fd = fd;
          recv_timeout = no_timeout;
          send_timeout = no_timeout;
        },
        if socket_by stat
            then (if not (has_nonblock (os.getfl s fd))
                then (os.setfl s fd (with_nonblock (os.getfl s fd))).1
                else s)
            else s,
      )

-- The options SO_RCVTIMEO and SO_SNDTIMEO.
pub data TimeoutType : Type 0 where
  so_rcvtimeo so_sndtimeo : TimeoutType

unfoldable pub set_timeout : FdCtx → TimeoutType → ℕ → FdCtx
set_timeout ctx so_rcvtimeo v = record ctx { recv_timeout = v }
set_timeout ctx so_sndtimeo v = record ctx { send_timeout = v }

unfoldable pub get_timeout : FdCtx → TimeoutType → ℕ
get_timeout ctx so_rcvtimeo = ctx.recv_timeout
get_timeout ctx so_sndtimeo = ctx.send_timeout

pub record FdManager : Type 0 where
  pub datas : List (Option FdCtx)

unfoldable pub new_fd_manager : FdManager
new_fd_manager = record { datas = replicate 64 none }

-- The slot at `i`; nothing is in what is not there.
abbrev pub slot : List (Option FdCtx) → ℕ → Option FdCtx
slot [] i = none
slot (x ∷ xs) zero = x
slot (x ∷ xs) (suc i) = slot xs i

-- What the first lock of `get` finds: an answer, or that a context is to be made.
pub data Looked : Type 0 where
  answer : Option FdCtx → Looked
  absent : Looked

unfoldable pub get_look : FdManager → ℕ → Bool → Looked
get_look m fd auto_create =
    if leb (length m.datas) fd
    then (if auto_create then absent else answer none)
    else if is_some (slot m.datas fd) || not auto_create
    then answer (slot m.datas fd)
    else absent

-- `m_datas.resize(size)`, when it grows.
abbrev pub resized : List (Option FdCtx) → ℕ → List (Option FdCtx)
resized datas size = datas ++ replicate (size - length datas) none

abbrev pub grown : FdManager → ℕ → List (Option FdCtx)
grown m fd = if leb (length m.datas) fd then resized m.datas (fd * 3 / 2) else m.datas

module _ {S : Type 0} (os : Os S) where
  -- The second lock; `none` is a write out of the table's bounds.
  unfoldable pub get_create : S → FdManager → ℕ → Option (Option FdCtx × S × FdManager)
  unfolding new_ctx
  get_create s m fd =
      let made = new_ctx os s fd in
      if ltb fd (length (grown m fd))
      then some (some made.0, made.1, record { datas = set (grown m fd) fd (some made.0) })
      else none

  abbrev pub then_create : S → FdManager → ℕ → Looked → Option (Option FdCtx × S × FdManager)
  then_create s m fd (answer ctx) = some (ctx, s, m)
  then_create s m fd absent = get_create s m fd

  -- `get` of one thread, with no other between its two locks; `none` for `fd` is -1.
  unfoldable pub get : S → FdManager → Option ℕ → Bool → Option (Option FdCtx × S × FdManager)
  unfolding get_look get_create
  get s m none auto_create = some (none, s, m)
  get s m (some fd) auto_create = then_create s m fd (get_look m fd auto_create)

unfoldable pub del : FdManager → ℕ → FdManager
del m fd = if leb (length m.datas) fd then m else record { datas = set m.datas fd none }
