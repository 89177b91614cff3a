-- ===== src/Hook/IoLaws.antt =====
-- do_io of src/hook/hook.cc: when it returns, what it returns, and that it leaves no timer.
use phase.Base.{
  ℕ, suc, ◌+◌, ◌*◌, ◌^◌, ◌≤◌, ◌<◌, ◌≡◌, refl, ap, sym, ◌∙◌, Bool, true, false, not, ◌&&◌, ◌||◌,
  Option, none, some, List, [], ◌∷◌, ◌++◌, ◌==◌, if◌then◌else◌, arith, All, Bool-cases, inl, inr,
  append_assoc, ◌↔◌, subst,
}
use phase.IoManager.State.{Event}
use phase.Hook.FdManager.{FdCtx, TimeoutType, get_timeout, no_timeout}
use phase.Hook.Io.{
  Attempt, returned, failed, interrupted, again, Effect, called, timer_added, event_added, yielded,
  timer_cancelled, IoResult, value, error, not_added, timer_end, armed_effects, retry_loop, do_io,
  call_once, sleep_ms,
}

-- The attempts after which do_io tries again, with what they do.
abbrev pub retried : Attempt → Bool
retried (returned n) = false
retried (failed e) = false
retried interrupted = true
retried (again added cancelled) = added && cancelled == 0

abbrev pub wait_effects : ℕ → Event → Attempt → List Effect
wait_effects to event (again added cancelled) = armed_effects to event ++ yielded ∷ timer_end to
wait_effects to event _ = called ∷ []

abbrev pub all_waits : ℕ → Event → List Attempt → List Effect
all_waits to event [] = []
all_waits to event (a ∷ attempts) = wait_effects to event a ++ all_waits to event attempts

-- The attempt after which it returns: the call's own answer, addEvent's failure, or the timer's error.
abbrev pub last_result : Attempt → IoResult
last_result (returned n) = value n
last_result (failed e) = error e
last_result interrupted = error 4
last_result (again added cancelled) = if not added then not_added else error cancelled

abbrev pub last_effects : ℕ → Event → Attempt → List Effect
last_effects to event (again added cancelled) =
    if not added
    then armed_effects to event ++ timer_end to
    else armed_effects to event ++ yielded ∷ timer_end to
last_effects to event _ = called ∷ []

retry_loop_last :
    (to : ℕ) (event : Event) (last : Attempt) (rest : List Attempt) (effects : List Effect)
    → retried last ≡ false
    → retry_loop to event (last ∷ rest) effects
      ≡ some (last_result last, effects ++ last_effects to event last, rest)
unfolding retry_loop
retry_loop_last to event (returned n) rest effects h = refl
retry_loop_last to event (failed e) rest effects h = refl
retry_loop_last to event interrupted rest effects h = cc
retry_loop_last to event (again false cancelled) rest effects h = refl
retry_loop_last to event (again true cancelled) rest effects h = rw h refl

regrouped : (a b c d : List Effect) → a ++ b ++ (c ++ d) ≡ a ++ (b ++ c ++ d)
regrouped a b c d = append_assoc a b (c ++ d) ∙ ap (λ z. a ++ z) (sym (append_assoc b c d))

retry_loop-waits :
    (to : ℕ) (event : Event) (waits : List Attempt) (last : Attempt) (rest : List Attempt)
    (effects : List Effect)
    → All (λ a. retried a ≡ true) waits
    → retried last ≡ false
    → retry_loop to event (waits ++ last ∷ rest) effects
      ≡ some (
        last_result last,
        effects ++ (all_waits to event waits ++ last_effects to event last),
        rest,
      )
unfolding retry_loop
retry_loop-waits to event [] last rest effects w h = retry_loop_last to event last rest effects h
retry_loop-waits to event (returned n ∷ waits) last rest effects (a, w) h = cc
retry_loop-waits to event (failed e ∷ waits) last rest effects (a, w) h = cc
retry_loop-waits to event (interrupted ∷ waits) last rest effects (a, w) h =
    retry_loop-waits to event waits last rest (effects ++ called ∷ []) w h
    ∙ ap (λ z. some (last_result last, z, rest))
        (regrouped effects (called ∷ []) (all_waits to event waits) _)
retry_loop-waits to event (again false cancelled ∷ waits) last rest effects (a, w) h = cc
retry_loop-waits to event (again true cancelled ∷ waits) last rest effects (a, w) h = rw a (
    retry_loop-waits to event waits last rest
      (effects ++ (armed_effects to event ++ yielded ∷ timer_end to)) w h
    ∙ ap (λ z. some (last_result last, z, rest))
        (regrouped effects (armed_effects to event ++ yielded ∷ timer_end to)
          (all_waits to event waits) _))

-- On an open socket that the user has not made non-blocking, do_io calls again after each EINTR, and
-- after each EAGAIN once the event has come; it returns at the first answer of another kind, with
-- that answer, or -1 if the event cannot be added or the timer fires first. Before, it has
-- added the event once for each EAGAIN, each time with a timer that it cancels, if there is a timeout.
pub do_io_returns :
    (ctx : FdCtx) (event : Event) (timeout_so : TimeoutType)
    → (waits : List Attempt) (last : Attempt) (rest : List Attempt) → ctx.is_closed ≡ false
    → (not ctx.is_socket || ctx.user_nonblock) ≡ false
    → All (λ a. retried a ≡ true) waits
    → retried last ≡ false
    → do_io true (some ctx) event timeout_so (waits ++ last ∷ rest)
      ≡ some (
        last_result last,
        all_waits (get_timeout ctx timeout_so) event waits
            ++ last_effects (get_timeout ctx timeout_so) event last,
        rest,
      )
unfolding do_io
do_io_returns ctx event timeout_so waits last rest c n w h =
    rw (c, n, do_io) (retry_loop-waits (get_timeout ctx timeout_so) event waits last rest [] w h)

abbrev pub timers_added : List Effect → ℕ
timers_added [] = 0
timers_added (timer_added to ∷ effects) = suc (timers_added effects)
timers_added (called ∷ effects) = timers_added effects
timers_added (event_added event ∷ effects) = timers_added effects
timers_added (yielded ∷ effects) = timers_added effects
timers_added (timer_cancelled ∷ effects) = timers_added effects

abbrev pub timers_cancelled : List Effect → ℕ
timers_cancelled [] = 0
timers_cancelled (timer_cancelled ∷ effects) = suc (timers_cancelled effects)
timers_cancelled (called ∷ effects) = timers_cancelled effects
timers_cancelled (event_added event ∷ effects) = timers_cancelled effects
timers_cancelled (yielded ∷ effects) = timers_cancelled effects
timers_cancelled (timer_added to ∷ effects) = timers_cancelled effects

abbrev Balanced : List Effect → Type 0
Balanced effects = timers_added effects ≡ timers_cancelled effects

added-append : (a b : List Effect) → timers_added (a ++ b) ≡ timers_added a + timers_added b
added-append [] b = omega arith
added-append (timer_added to ∷ a) b = omega (arith, added-append a b)
added-append (called ∷ a) b = added-append a b
added-append (event_added event ∷ a) b = added-append a b
added-append (yielded ∷ a) b = added-append a b
added-append (timer_cancelled ∷ a) b = added-append a b

cancelled-append :
    (a b : List Effect) → timers_cancelled (a ++ b) ≡ timers_cancelled a + timers_cancelled b
cancelled-append [] b = omega arith
cancelled-append (timer_cancelled ∷ a) b = omega (arith, cancelled-append a b)
cancelled-append (called ∷ a) b = cancelled-append a b
cancelled-append (event_added event ∷ a) b = cancelled-append a b
cancelled-append (yielded ∷ a) b = cancelled-append a b
cancelled-append (timer_added to ∷ a) b = cancelled-append a b

Balanced-append : (a b : List Effect) → Balanced a → Balanced b → Balanced (a ++ b)
Balanced-append a b h k = omega (arith, added-append a b, cancelled-append a b, h, k)

waited-Balanced :
    (to : ℕ) (event : Event)
    → Balanced (armed_effects to event ++ yielded ∷ timer_end to)
      × Balanced (armed_effects to event ++ timer_end to)
waited-Balanced to event = elim (Bool-cases (to == no_timeout)) [
  | inl e ↦ (rw e refl, rw e refl)
  | inr e ↦ (rw e refl, rw e refl)
]

-- What a finished call left.
abbrev Settled : Option (IoResult × List Effect × List Attempt) → Type 0
Settled none = Unit
Settled (some r) = Balanced r.1

retry_loop-Settled :
    (to : ℕ) (event : Event) (attempts : List Attempt) (effects : List Effect)
    → Balanced effects
    → Settled (retry_loop to event attempts effects)
unfolding retry_loop
retry_loop-Settled to event [] effects b = tt
retry_loop-Settled to event (returned n ∷ attempts) effects b =
    Balanced-append effects (called ∷ []) b refl
retry_loop-Settled to event (failed e ∷ attempts) effects b =
    Balanced-append effects (called ∷ []) b refl
retry_loop-Settled to event (interrupted ∷ attempts) effects b =
    retry_loop-Settled to event attempts (effects ++ called ∷ [])
      (Balanced-append effects (called ∷ []) b refl)
retry_loop-Settled to event (again false cancelled ∷ attempts) effects b =
    Balanced-append effects (armed_effects to event ++ timer_end to) b (waited-Balanced to event).1
retry_loop-Settled to event (again true cancelled ∷ attempts) effects b =
    let resumed =
      Balanced-append effects (armed_effects to event ++ yielded ∷ timer_end to) b
        (waited-Balanced to event).0 in
    elim (Bool-cases (cancelled == 0)) [
      | inl e ↦ rw e (retry_loop-Settled to event attempts _ resumed)
      | inr e ↦ rw e resumed
    ]

call_once-Settled : (attempts : List Attempt) → Settled (call_once attempts)
unfolding call_once
call_once-Settled [] = tt
call_once-Settled (a ∷ attempts) = refl

do_io-Settled :
    (hook_enable : Bool) (ctx : Option FdCtx) (event : Event) (timeout_so : TimeoutType)
    → (attempts : List Attempt) → Settled (do_io hook_enable ctx event timeout_so attempts)
unfolding do_io
do_io-Settled hook_enable none event timeout_so attempts = call_once-Settled attempts
do_io-Settled false (some ctx) event timeout_so attempts = call_once-Settled attempts
do_io-Settled true (some ctx) event timeout_so attempts = elim (Bool-cases ctx.is_closed) [
  | inl e ↦ rw (e, do_io) refl
  | inr e ↦ elim (Bool-cases (not ctx.is_socket || ctx.user_nonblock)) [
    | inl f ↦ rw (e, f, do_io) (call_once-Settled attempts)
    | inr f ↦
        rw (e, f, do_io) (retry_loop-Settled (get_timeout ctx timeout_so) event attempts [] refl)
  ]
]

-- Whatever the descriptor and whatever is answered, a do_io that returns has cancelled as many timers
-- as it has added.
pub do_io_settled :
    (hook_enable : Bool) (ctx : Option FdCtx) (event : Event) (timeout_so : TimeoutType)
    → (attempts : List Attempt) (r : IoResult) (effects : List Effect) (rest : List Attempt)
    → do_io hook_enable ctx event timeout_so attempts ≡ some (r, effects, rest)
    → timers_added effects ≡ timers_cancelled effects
do_io_settled hook_enable ctx event timeout_so attempts r effects rest e =
    subst Settled e (do_io-Settled hook_enable ctx event timeout_so attempts)

-- The milliseconds of a hooked `sleep` are those that were asked for exactly up to 4294967 seconds: above,
-- for any `unsigned`, the product wraps.
pub sleep_ms_iff :
    (seconds : ℕ) → seconds < 2 ^ 32 → (sleep_ms seconds ≡ seconds * 1000) ↔ (seconds ≤ 4294967)
unfolding sleep_ms
sleep_ms_iff seconds h = (λ e. omega (arith, e), λ k. omega (arith, k))
