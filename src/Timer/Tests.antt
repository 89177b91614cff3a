-- ===== src/Timer/Tests.antt =====
-- The theorems on the timers at concrete managers.
use phase.Base.{
  ℕ, ◌+◌, ◌≡◌, refl, not, ◌&&◌, ◌||◌, if◌then◌else◌, ◌==◌, true, false, none, some, [], ◌∷◌, add64,
}
use phase.Timer.State.{
  plain, TimerManager, new_manager, is_first, set_insert, add_timer_locked, add_timer, cancel,
  reset, expire_from, list_expired_cb, split_expired, lower_bound, due_now, fire,
  detect_clock_rollover, comparator,
}
use phase.Timer.Order.{member}
use phase.Timer.Invariant.{Inv, has_cb, unchanged, reset_next, add_timer-Inv, cancel-Inv, reset-Inv}
use phase.Timer.Expiry.{Expires, list_expired_cb-Expires}

new_manager-Inv : (now : ℕ) → Inv (new_manager now)
new_manager-Inv now = record { sorted = tt; armed = λ x. refl }

-- Two timers: at address 7 one that is due at 150, at address 9 a recurring one due at 120.
abbrev one_timer : TimerManager
one_timer = add_timer (new_manager 100) 100 7 50 (some (plain 1)) false

one_timer-Inv : Inv one_timer
one_timer-Inv =
    (add_timer-Inv (new_manager 100) 100 7 50 (plain 1) false (new_manager-Inv 100) refl).0

abbrev two_timers : TimerManager
two_timers = add_timer one_timer 100 9 20 (some (plain 2)) true

free_nine : (one_timer.heap 9).cb ≡ none
unfolding add_timer add_timer_locked
free_nine = refl

two_timers-Inv : Inv two_timers
two_timers-Inv = (add_timer-Inv one_timer 100 9 20 (plain 2) true one_timer-Inv free_nine).0

two_timers_sorted : two_timers.timers ≡ 9 ∷ 7 ∷ []
unfolding add_timer add_timer_locked set_insert comparator
two_timers_sorted = refl

add_timer-Inv_example :
    Inv two_timers
    × ((two_timers.heap 9).next ≡ add64 100 20)
    × ((x : ℕ) → member x two_timers.timers ≡ (if 9 == x then true else member x one_timer.timers))
    × (two_timers.wakeups ≡ (
        if is_first 9 two_timers.timers && not one_timer.tickled
        then one_timer.wakeups + 1
        else one_timer.wakeups))
    × (two_timers.tickled ≡ (is_first 9 two_timers.timers || one_timer.tickled))
    × ((x : ℕ)
        → two_timers.heap x ≡ (
            if 9 == x
            then record { recurring = true; ms = 20; next = add64 100 20; cb = some (plain 2) }
            else one_timer.heap x))
add_timer-Inv_example = add_timer-Inv one_timer 100 9 20 (plain 2) true one_timer-Inv free_nine

cancel-Inv_example :
    (m' : TimerManager) × (cancel two_timers 9 ≡ some (m', has_cb two_timers.heap 9))
    × Inv m'
    × ((x : ℕ)
        → m'.heap x
          ≡ (if 9 == x then record (two_timers.heap 9) { cb = none } else two_timers.heap x))
    × (m'.wakeups ≡ two_timers.wakeups)
    × (m'.tickled ≡ two_timers.tickled)
cancel-Inv_example = cancel-Inv two_timers 9 two_timers-Inv

reset-Inv_example :
    let r = reset two_timers 130 9 5 false in
    let same = unchanged (two_timers.heap 9) 5 false in
    Inv r.0
    × (r.1 ≡ (same || has_cb two_timers.heap 9))
    × (((r.0).heap 9).next ≡ (
        if same || not (has_cb two_timers.heap 9)
        then (two_timers.heap 9).next
        else reset_next (two_timers.heap 9) 130 5 false))
    × ((x : ℕ)
        → (r.0).heap x ≡ (
            if not same && has_cb two_timers.heap 9 && 9 == x
            then record (two_timers.heap 9) {
              ms = 5;
              next = reset_next (two_timers.heap 9) 130 5 false;
            }
            else two_timers.heap x))
    × ((r.0).wakeups
        ≡ two_timers.wakeups
          + (if not same
                && has_cb two_timers.heap 9
                && is_first 9 (r.0).timers
                && not two_timers.tickled
              then 1
              else 0))
    × ((r.0).tickled
        ≡ (two_timers.tickled || (not same && has_cb two_timers.heap 9 && is_first 9 (r.0).timers)))
reset-Inv_example = reset-Inv two_timers 130 9 5 false two_timers-Inv

free_four : (two_timers.heap 4).cb ≡ none
unfolding add_timer add_timer_locked
free_four = refl

list_expired_cb-Expires_example : Expires two_timers 125 4
list_expired_cb-Expires_example = list_expired_cb-Expires two_timers 125 4 two_timers-Inv free_four

-- The timer at 9 fires and is set again; the one at 7 stays.
fired_at_125 : (list_expired_cb two_timers 125 4).0 ≡ some (plain 2) ∷ []
unfolding add_timer add_timer_locked set_insert comparator list_expired_cb expire_from split_expired
    lower_bound due_now fire detect_clock_rollover
fired_at_125 = refl
