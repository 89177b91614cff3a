-- ===== src/Fiber/Tests.antt =====
-- The theorems on fibers and the scheduler at concrete states.
use phase.Base.{ℕ, ◌≡◌, refl, true, false, none, some, List, [], ◌∷◌}
use phase.Fiber.State.{Fiber, Local, exec, create, swap_in}
use phase.Fiber.Lifecycle.{FiberReach, created, then_step, resumed}
use phase.Fiber.Scheduler.{ScheduleTask, Scheduler, cb, schedule, stop, stopping, schedules}
use phase.Fiber.Counting.{Counts}
use phase.Fiber.Reaching.{starts, steps, fresh, reach-Counts}

-- A new fiber, and the same one running.
abbrev new_fiber : Fiber
new_fiber = create 1 (some 5) true

abbrev nowhere : Local
nowhere = record { current = none; thread_fiber = none; main_fiber = none }

abbrev run_fiber : Fiber
run_fiber = record new_fiber { state = exec }

run_fiber-FiberReach : FiberReach run_fiber
run_fiber-FiberReach = then_step new_fiber run_fiber (created 1 (some 5) true) (
    resumed new_fiber run_fiber nowhere (record nowhere { current = some 1 })
      (unfold swap_in in unfold create in refl))

-- A task for thread 8 and one for any.
abbrev bound : ScheduleTask
bound = record { work = some (cb 1); thread = some 8 }

abbrev free : ScheduleTask
free = record { work = some (cb 2); thread = none }

abbrev queue : List ScheduleTask
queue = bound ∷ free ∷ []

abbrev two_threads : List ℕ
two_threads = 7 ∷ 8 ∷ []

abbrev one_task : Scheduler
one_task = schedule (fresh two_threads) free

reach-Counts_example : Counts one_task
reach-Counts_example =
    reach-Counts one_task
      (steps (fresh two_threads) one_task (starts two_threads) (schedules (fresh two_threads) free))

abbrev told : Scheduler
told = stop (fresh two_threads) 2 false

told_and_quiet : stopping told ≡ true
told_and_quiet = unfold stopping in unfold stop in refl
