-- ===== src/Timer/State.antt =====
-- Timer, its comparator, the operations of std::set that the code calls, and TimerManager.
-- A timer's address is its index in the heap; the clock and new addresses are arguments.
use phase.Base.{
  ℕ, ◌+◌, ◌-◌, ◌*◌, Bool, true, false, not, ◌&&◌, Option, none, some, List, [], ◌∷◌, ◌++◌, ltb, leb,
  ◌==◌, if◌then◌else◌, add64, sub64, u64_mod,
}

-- A callback: the user's, or one bound to `OnTimer` with a weak condition.
pub data Callback : Type 0 where
  plain : ℕ → Callback
  on_timer : ℕ → Callback → Callback

pub record Timer : Type 0 where
  pub recurring : Bool
  pub ms : ℕ
  pub next : ℕ
  pub cb : Option Callback

abbrev pub Heap : Type 0
Heap = ℕ → Timer

abbrev pub update : Heap → ℕ → Timer → Heap
update h p t q = if p == q then t else h q

-- `m_tickled` and `m_previouseTime`; `wakeups` counts the calls of onTimerInsertedAtFront.
pub record TimerManager : Type 0 where
  pub heap : Heap
  pub timers : List ℕ
  pub tickled : Bool
  pub previous_time : ℕ
  pub wakeups : ℕ

-- No timer is allocated.
abbrev pub no_timer : Timer
no_timer = record { recurring = false; ms = 0; next = 0; cb = none }

abbrev pub new_manager : ℕ → TimerManager
new_manager now = record {
  heap = λ p. no_timer;
  timers = [];
  tickled = false;
  previous_time = now;
  wakeups = 0;
}

-- Timer::Comparator on pointers that may be null.
unfoldable pub comparator : Heap → Option ℕ → Option ℕ → Bool
comparator h none none = false
comparator h none (some r) = true
comparator h (some l) none = false
comparator h (some l) (some r) =
    if ltb (h l).next (h r).next then true else if ltb (h r).next (h l).next then false else ltb l r

abbrev pub before : Heap → ℕ → ℕ → Bool
before h a b = comparator h (some a) (some b)

-- The set is the list of its elements in the comparator's order.
unfoldable pub set_insert : Heap → ℕ → List ℕ → List ℕ
set_insert h a [] = a ∷ []
set_insert h a (b ∷ bs) =
    if before h a b then a ∷ b ∷ bs else if before h b a then b ∷ set_insert h a bs else b ∷ bs

-- `find`, and `erase` of what it finds: `none` is `end()`.
unfoldable pub set_erase : Heap → ℕ → List ℕ → Option (List ℕ)
set_erase h a [] = none
set_erase h a (b ∷ bs) =
    let rest = set_erase h a bs in
    if before h b a
    then elim rest [ none ↦ none | some l ↦ some (b ∷ l) ]
    else if before h a b
    then none
    else some bs

-- `it == m_timers.begin()`.
abbrev pub is_first : ℕ → List ℕ → Bool
is_first p [] = false
is_first p (a ∷ others) = a == p

-- addTimer(val, lock), with the lock held.
unfoldable pub add_timer_locked : TimerManager → ℕ → TimerManager
unfolding set_insert
add_timer_locked m p =
    let timers = set_insert m.heap p m.timers in
    let at_front = is_first p timers && not m.tickled in
    record m {
      timers = timers;
      tickled = if at_front then true else m.tickled;
      wakeups = if at_front then m.wakeups + 1 else m.wakeups;
    }

-- addTimer: the new object's address is `p`.
unfoldable pub add_timer : TimerManager → ℕ → ℕ → ℕ → Option Callback → Bool → TimerManager
unfolding add_timer_locked
add_timer m now p ms cb recurring =
    add_timer_locked
      (record m {
        heap =
            update m.heap p
              (record { recurring = recurring; ms = ms; next = add64 now ms; cb = cb });
      })
      p

unfoldable pub add_condition_timer : TimerManager → ℕ → ℕ → ℕ → Callback → ℕ → Bool → TimerManager
unfolding add_timer
add_condition_timer m now p ms cb cond recurring =
    add_timer m now p ms (some (on_timer cond cb)) recurring

-- `none` is an erase of `end()`, which is undefined.
unfoldable pub cancel : TimerManager → ℕ → Option (TimerManager × Bool)
unfolding set_erase
cancel m p =
    let heap = update m.heap p (record (m.heap p) { cb = none }) in
    elim (m.heap p).cb [
      | none ↦ some (m, false)
      | some cb ↦ elim (set_erase heap p m.timers) [
        | none ↦ none
        | some timers ↦ some (record m { heap = heap; timers = timers }, true)
      ]
    ]

unfoldable pub refresh : TimerManager → ℕ → ℕ → TimerManager × Bool
unfolding set_erase set_insert
refresh m now p = elim (m.heap p).cb [
  | none ↦ (m, false)
  | some cb ↦ elim (set_erase m.heap p m.timers) [
    | none ↦ (m, false)
    | some rest ↦
        let t : Timer = record (m.heap p) { next = add64 now (m.heap p).ms } in
        let heap = update m.heap p t in
        (record m { heap = heap; timers = set_insert heap p rest }, true)
  ]
]

unfoldable pub reset : TimerManager → ℕ → ℕ → ℕ → Bool → TimerManager × Bool
unfolding set_erase add_timer_locked
reset m now p ms from_now =
    if ms == (m.heap p).ms && not from_now then (m, true) else elim (m.heap p).cb [
      | none ↦ (m, false)
      | some cb ↦ elim (set_erase m.heap p m.timers) [
        | none ↦ (m, false)
        | some rest ↦
            let start = if from_now then now else sub64 (m.heap p).next (m.heap p).ms in
            let t : Timer = record (m.heap p) { ms = ms; next = add64 start ms } in
            (add_timer_locked (record m { heap = update m.heap p t; timers = rest }) p, true)
      ]
    ]

-- `~0ull` is for "no timer".
abbrev pub next_wait : Heap → List ℕ → ℕ → ℕ
next_wait h [] now = u64_mod - 1
next_wait h (a ∷ others) now = if leb (h a).next now then 0 else (h a).next - now

unfoldable pub get_next_timer : TimerManager → ℕ → TimerManager × ℕ
get_next_timer m now = (record m { tickled = false }, next_wait m.heap m.timers now)

unfoldable pub has_timer : TimerManager → Bool
has_timer m = elim m.timers [ [] ↦ false | a ∷ others ↦ true ]

unfoldable pub detect_clock_rollover : TimerManager → ℕ → TimerManager × Bool
detect_clock_rollover m now = (
  record m { previous_time = now },
  ltb now m.previous_time && ltb now (sub64 m.previous_time (60 * 60 * 1000)),
)

-- The elements before the lower bound of `p`, and the rest.
unfoldable pub lower_bound : Heap → ℕ → List ℕ → List ℕ × List ℕ
lower_bound h p [] = ([], [])
lower_bound h p (b ∷ bs) =
    let (front, rest) = lower_bound h p bs in
    if before h b p then (b ∷ front, rest) else ([], b ∷ bs)

-- The loop over the elements due at `now` exactly.
unfoldable pub due_now : Heap → ℕ → List ℕ → List ℕ × List ℕ
due_now h now [] = ([], [])
due_now h now (b ∷ bs) =
    let (front, rest) = due_now h now bs in
    if (h b).next == now then (b ∷ front, rest) else ([], b ∷ bs)

-- The loop over the expired timers: what is pushed to `cbs`, the heap, and the set.
unfoldable pub fire : ℕ → List ℕ → Heap → List ℕ → List (Option Callback) × Heap × List ℕ
unfolding set_insert
fire now [] h timers = ([], h, timers)
fire now (a ∷ others) h timers =
    let again : Heap = update h a (record (h a) { next = add64 now (h a).ms }) in
    let dead : Heap = update h a (record (h a) { cb = none }) in
    let fired =
      fire now others (if (h a).recurring then again else dead)
        (if (h a).recurring then set_insert again a timers else timers) in
    ((h a).cb ∷ fired.0, fired.1, fired.2)

-- The expired part of the set, found with a new timer at address `p` that is due at `now`.
unfoldable pub split_expired : TimerManager → ℕ → ℕ → Bool → List ℕ × List ℕ
unfolding lower_bound due_now
split_expired m now p rollover =
    let probe : Timer = record { recurring = false; ms = 0; next = now; cb = none } in
    let (front, rest) = lower_bound (update m.heap p probe) p m.timers in
    let (same, rest') = due_now m.heap now rest in
    if rollover then (m.timers, []) else (front ++ same, rest')

-- `m_timers.empty()`, and `*m_timers.begin()`.
abbrev pub if_empty {ℓ} : {A : Type ℓ} → List ℕ → A → (ℕ → A) → A
if_empty [] x f = x
if_empty (a ∷ others) x f = f a

-- From the clock's test on; the set is not empty and `a` is its first timer.
unfoldable pub expire_from : TimerManager → ℕ → ℕ → ℕ → List (Option Callback) × TimerManager
unfolding split_expired fire detect_clock_rollover
expire_from m now p a =
    let (m', rollover) = detect_clock_rollover m now in
    let (expired, rest) = split_expired m' now p rollover in
    let fired = fire now expired m'.heap rest in
    if not rollover && ltb now (m.heap a).next
    then ([], m')
    else (fired.0, record m' { heap = fired.1; timers = fired.2 })

unfoldable pub list_expired_cb : TimerManager → ℕ → ℕ → List (Option Callback) × TimerManager
unfolding expire_from
list_expired_cb m now p = if_empty m.timers ([], m) (expire_from m now p)
