-- ===== src/Fiber/State.antt =====
-- The class Fiber of src/fiber/fiber.cc: its state and the operations on it. A switch of contexts is the
-- end of the operation; a failed assertion is `none`.
use phase.Base.{ℕ, ◌==◌, Bool, true, false, not, ◌||◌, Option, none, some, if◌then◌else◌}

pub data State : Type 0 where
  init hold exec term ready except : State

pub record Fiber : Type 0 where
  pub id : ℕ
  pub state : State
  pub has_stack : Bool
  pub cb : Option ℕ
  pub run_in_scheduler : Bool

-- The thread-local pointers: `t_fiber`, `t_threadFiber` and the scheduler's main fiber.
pub record Local : Type 0 where
  pub current : Option ℕ
  pub thread_fiber : Option ℕ
  pub main_fiber : Option ℕ

abbrev pub same_state : State → State → Bool
same_state init init = true
same_state hold hold = true
same_state exec exec = true
same_state term term = true
same_state ready ready = true
same_state except except = true
same_state _ _ = false

-- The constructor with a callback; the state is READY by its member initialiser.
unfoldable pub create : ℕ → Option ℕ → Bool → Fiber
create id cb run_in_scheduler = record {
  id = id;
  state = ready;
  has_stack = true;
  cb = cb;
  run_in_scheduler = run_in_scheduler;
}

-- The private constructor: the main fiber of a thread.
unfoldable pub create_main : ℕ → Local → Fiber × Local
create_main id l = (
  record { id = id; state = exec; has_stack = false; cb = none; run_in_scheduler = false },
  record l { current = some id },
)

abbrev pub is_over : State → Bool
is_over s = same_state s term || same_state s except || same_state s init

abbrev pub is_none {ℓ} : {A : Type ℓ} → Option A → Bool
is_none none = true
is_none (some a) = false

abbrev pub same_id : Option ℕ → ℕ → Bool
same_id none i = false
same_id (some j) i = j == i

-- The destructor.
unfoldable pub destroy : Fiber → Local → Option Local
destroy f l =
    if f.has_stack
    then (if is_over f.state then some l else none)
    else if not (is_none f.cb)
    then none
    else if not (same_state f.state exec)
    then none
    else some (record l { current = if same_id l.current f.id then none else l.current })

unfoldable pub reset : Fiber → Option ℕ → Option Fiber
reset f cb =
    if not f.has_stack
    then none
    else if not (is_over f.state)
    then none
    else some (record f { cb = cb; state = init })

unfoldable pub swap_in : Fiber → Local → Option (Fiber × Local)
swap_in f l =
    if same_state f.state exec
    then none
    else some (record f { state = exec }, record l { current = some f.id })

-- What the context is switched to.
unfoldable pub back_to : Fiber → Local → Option ℕ
back_to f l = if f.run_in_scheduler then l.main_fiber else l.thread_fiber

unfoldable pub swap_out : Fiber → Local → Option (Fiber × Local)
swap_out f l =
    if same_state f.state exec || same_state f.state term
    then some (
      record f { state = if same_state f.state term then f.state else ready },
      record l { current = l.main_fiber },
    )
    else none

unfoldable pub yield_to_ready : Fiber → Local → Option (Fiber × Local)
unfolding swap_out
yield_to_ready f l = if same_state f.state exec then swap_out f l else none

unfoldable pub yield_to_hold : Fiber → Local → Option (Fiber × Local)
unfolding swap_out
yield_to_hold f l = if same_state f.state exec then swap_out (record f { state = hold }) l else none

-- MainFunc, when the callback has returned or thrown.
pub data Outcome : Type 0 where
  returns throws : Outcome

unfoldable pub main_func : Fiber → Local → Outcome → Option (Fiber × Local)
unfolding swap_out
main_func f l returns = swap_out (record f { cb = none; state = term }) l
main_func f l throws = swap_out (record f { state = except }) l
