-- ===== src/Fiber/Scheduler.antt =====
-- The class Scheduler of src/fiber/scheduler.cc: the queue of tasks, and the loop of its threads as steps.
-- Each part of the loop that holds the mutex, or changes an atomic counter, is one step.
use phase.Base.{
  ℕ, suc, ◌+◌, ◌-◌, Bool, true, false, not, ◌&&◌, Option, none, some, List, [], ◌∷◌, ◌++◌, ◌==◌,
  ◌≡◌, get_elem?, set, if◌then◌else◌,
}

-- What a task runs: a fiber or a callback, by number.
pub data Work : Type 0 where
  fiber cb : ℕ → Work

-- `work` is `none` for a null fiber and an empty callback; `thread` is `none` for -1.
pub record ScheduleTask : Type 0 where
  pub work : Option Work
  pub thread : Option ℕ

-- Where a thread stands in `run`: at the top of the loop, inside a task, inside the idle fiber, or
-- behind the loop.
pub data Place : Type 0 where
  looking : Place
  running : ScheduleTask → Place
  idling : Place
  exited : Place

-- A thread, and whether its idle fiber has terminated.
pub record Worker : Type 0 where
  pub thread_id : ℕ
  pub place : Place
  pub idle_term : Bool

pub record Scheduler : Type 0 where
  pub tasks : List ScheduleTask
  pub active_thread_count : ℕ
  pub idle_thread_count : ℕ
  pub is_stopping : Bool
  pub workers : List Worker
  pub tickles : ℕ

abbrev pub is_empty {ℓ} : {A : Type ℓ} → List A → Bool
is_empty [] = true
is_empty (a ∷ l) = false

abbrev pub has_work : ScheduleTask → Bool
has_work t = elim t.work [ none ↦ false | some w ↦ true ]

abbrev pub tickle_if : Bool → Scheduler → Scheduler
tickle_if b s = record s { tickles = if b then suc s.tickles else s.tickles }

-- scheduleNoLock: the new queue, and whether a tickle is needed.
unfoldable pub schedule_no_lock : List ScheduleTask → ScheduleTask → List ScheduleTask × Bool
schedule_no_lock tasks task = (if has_work task then tasks ++ task ∷ [] else tasks, is_empty tasks)

unfoldable pub schedule : Scheduler → ScheduleTask → Scheduler
unfolding schedule_no_lock
schedule s task =
    tickle_if (schedule_no_lock s.tasks task).1
      (record s { tasks = (schedule_no_lock s.tasks task).0 })

-- `it->thread != -1 && it->thread != GetCurThreadId()`.
abbrev pub is_elsewhere : ℕ → ScheduleTask → Bool
is_elsewhere id t = elim t.thread [ none ↦ false | some n ↦ not (n == id) ]

-- The search of `run` for a task: the task, the queue without it, and `tickleMe`.
unfoldable pub pick : ℕ → List ScheduleTask → Option ScheduleTask × List ScheduleTask × Bool
pick id [] = (none, [], false)
pick id (t ∷ tasks) =
    let found = pick id tasks in
    if is_elsewhere id t
    then (found.0, t ∷ found.1, true)
    else (some t, tasks, not (is_empty tasks))

unfoldable pub stopping : Scheduler → Bool
stopping s = s.is_stopping && is_empty s.tasks && (s.active_thread_count == 0)

abbrev pub move_worker : Scheduler → ℕ → Worker → Scheduler
move_worker s i w = record s { workers = set s.workers i w }

-- From the top of the loop to a task, to the idle fiber, or out of the loop.
unfoldable pub look : Scheduler → ℕ → Worker → Scheduler
unfolding pick
look s i w =
    let found = pick w.thread_id s.tasks in
    let tickled = tickle_if found.2 (record s { tasks = found.1 }) in
    elim found.0 [
      | some t ↦
          move_worker (record tickled { active_thread_count = s.active_thread_count + 1 }) i
            (record w { place = running t })
      | none ↦
          if w.idle_term
          then move_worker tickled i (record w { place = exited })
          else move_worker (record tickled { idle_thread_count = s.idle_thread_count + 1 }) i
              (record w { place = idling })
    ]

-- The task's fiber has been swapped out.
unfoldable pub finish : Scheduler → ℕ → Worker → Scheduler
finish s i w =
    move_worker (record s { active_thread_count = s.active_thread_count - 1 }) i
      (record w { place = looking })

-- The idle fiber: it ends if the scheduler is stopping, and yields otherwise.
unfoldable pub idle_round : Scheduler → ℕ → Worker → Scheduler
unfolding stopping
idle_round s i w =
    move_worker (record s { idle_thread_count = s.idle_thread_count - 1 }) i
      (record w { place = looking; idle_term = stopping s })

-- stop, up to the join: the flag, and a tickle for each thread and one for the root fiber.
unfoldable pub stop : Scheduler → ℕ → Bool → Scheduler
unfolding stopping
stop s thread_count has_root = if stopping s then s else record s {
  is_stopping = true;
  tickles = s.tickles + thread_count + (if has_root then 1 else 0);
}

-- One step of the whole scheduler.
pub data SchedulerStep : Scheduler → Scheduler → Type 0 where
  schedules : (s : Scheduler) (t : ScheduleTask) → SchedulerStep s (schedule s t)
  looks :
      (s : Scheduler) (i : ℕ) (w : Worker)
      → get_elem? s.workers i ≡ some w
      → w.place ≡ looking
      → SchedulerStep s (look s i w)
  finishes :
      (s : Scheduler) (i : ℕ) (w : Worker) (t : ScheduleTask)
      → get_elem? s.workers i ≡ some w
      → w.place ≡ running t
      → SchedulerStep s (finish s i w)
  idles :
      (s : Scheduler) (i : ℕ) (w : Worker)
      → get_elem? s.workers i ≡ some w
      → w.place ≡ idling
      → SchedulerStep s (idle_round s i w)
  stops : (s : Scheduler) (n : ℕ) (root : Bool) → SchedulerStep s (stop s n root)
