-- ===== src/Fiber/Reaching.antt =====
-- The scheduler in every state that its threads reach.
use phase.Base.{ℕ, ◌≡◌, refl, sym, ◌∙◌, Bool, true, false, ◌&&◌, List, [], ◌∷◌, arith, All}
use phase.Fiber.Scheduler.{
  ScheduleTask, looking, Worker, Scheduler, is_empty, stopping, SchedulerStep, schedules, looks,
  finishes, idles, stops,
}
use phase.Fiber.Counting.{
  is_running, is_idling, count, Counts, schedule-Counts, look-Counts, finish-Counts,
  idle_round-Counts, stop-Counts,
}

-- Threads that have just started, and nothing scheduled.
abbrev pub fresh_workers : List ℕ → List Worker
fresh_workers [] = []
fresh_workers (id ∷ ids) =
    record { thread_id = id; place = looking; idle_term = false } ∷ fresh_workers ids

abbrev pub fresh : List ℕ → Scheduler
fresh ids = record {
  tasks = [];
  active_thread_count = 0;
  idle_thread_count = 0;
  is_stopping = false;
  workers = fresh_workers ids;
  tickles = 0;
}

pub data SchedulerReach : Scheduler → Type 0 where
  starts : (ids : List ℕ) → SchedulerReach (fresh ids)
  steps : (s s' : Scheduler) → SchedulerReach s → SchedulerStep s s' → SchedulerReach s'

fresh_zero :
    (ids : List ℕ)
    → (0 ≡ count is_running (fresh_workers ids)) × (0 ≡ count is_idling (fresh_workers ids))
unfolding count
fresh_zero [] = (refl, refl)
fresh_zero (id ∷ ids) = let (a, b) = fresh_zero ids in (omega (arith, a), omega (arith, b))

fresh_halted : (ids : List ℕ) → All (λ w. (w.idle_term && true) ≡ false) (fresh_workers ids)
fresh_halted [] = tt
fresh_halted (id ∷ ids) = (refl, fresh_halted ids)

step-Counts : (s s' : Scheduler) → SchedulerStep s s' → Counts s → Counts s'
step-Counts _ _ (schedules s t) v = schedule-Counts s t v
step-Counts _ _ (looks s i w e at) v = look-Counts s i w e at v
step-Counts _ _ (finishes s i w t e at) v = finish-Counts s i w t e at v
step-Counts _ _ (idles s i w e at) v = idle_round-Counts s i w e at v
step-Counts _ _ (stops s n root) v = stop-Counts s n root v

-- In every state that the threads reach from a fresh scheduler, in any order of steps, the two counters
-- are the numbers of threads that run a task and that are in the idle fiber, every queued task has
-- something to run, and no idle fiber has ended unless the scheduler was told to stop.
pub reach-Counts : (s : Scheduler) → SchedulerReach s → Counts s
reach-Counts _ (starts ids) = record {
  active = (fresh_zero ids).0;
  idle = (fresh_zero ids).1;
  work = tt;
  halted = fresh_halted ids;
}
reach-Counts _ (steps s s' r step) = step-Counts s s' step (reach-Counts s r)

none_counted : (p : Worker → Bool) (ws : List Worker) → count p ws ≡ 0 → All (λ w. p w ≡ false) ws
unfolding count
none_counted p [] e = tt
none_counted p (w ∷ ws) e =
    let rest = none_counted p ws (omega (arith, e)) in (ground (arith, e), rest)

nothing_in : (tasks : List ScheduleTask) → is_empty tasks ≡ true → tasks ≡ []
nothing_in [] e = refl
nothing_in (t ∷ tasks) e = absurd (ground (arith, e))

-- Whenever `stopping` answers yes in a state that is reached, the scheduler was told to stop, the queue
-- is empty and no thread runs a task.
pub stopping_lem :
    (s : Scheduler)
    → SchedulerReach s
    → stopping s ≡ true
    → (s.is_stopping ≡ true) × (s.tasks ≡ []) × All (λ w. is_running w ≡ false) s.workers
unfolding stopping
stopping_lem s r e =
    let v = reach-Counts s r in
    (
      ground (arith, e),
      nothing_in s.tasks (ground (arith, e)),
      none_counted is_running s.workers (sym v.active ∙ ground (arith, e)),
    )
