-- ===== src/Fiber/Picking.antt =====
-- The search of `run` for a task.
use phase.Base.{
  ℕ, ◌≡◌, refl, ap, inl, inr, ◌⊎◌, true, false, not, none, some, List, [], ◌∷◌, ◌++◌, All,
  Bool-cases,
}
use phase.Fiber.Scheduler.{ScheduleTask, is_empty, is_elsewhere, pick}

-- What the search finds: the first task that may run here, taken out, or nothing if all the tasks are
-- for other threads. Others are woken up exactly if a task is left.
pub pick_lem :
    (id : ℕ) (tasks : List ScheduleTask)
    → ((pick id tasks).2 ≡ not (is_empty (pick id tasks).1))
      × ((((pick id tasks).0 ≡ none)
            × ((pick id tasks).1 ≡ tasks)
            × All (λ t. is_elsewhere id t ≡ true) tasks)
          ⊎ ((front : List ScheduleTask) × (t : ScheduleTask) × (back : List ScheduleTask) × (tasks
                ≡ front ++ t ∷ back)
              × ((pick id tasks).0 ≡ some t)
              × ((pick id tasks).1 ≡ front ++ back)
              × (is_elsewhere id t ≡ false)
              × All (λ t. is_elsewhere id t ≡ true) front))
unfolding pick
pick_lem id [] = (refl, inl (refl, refl, tt))
pick_lem id (t ∷ tasks) = elim (Bool-cases (is_elsewhere id t)) [
  | inr e ↦ rw e (refl, inr ([], t, tasks, refl, refl, refl, e, tt))
  | inl e ↦ rw e (
    refl,
    elim (pick_lem id tasks).1 [
      | inl (none_here, same, all) ↦ inl (none_here, ap (λ z. t ∷ z) same, (refl, all))
      | inr (front, u, back, cut, found, rest, here, all) ↦
          inr (t ∷ front, u, back, ap (λ z. t ∷ z) cut, found, ap (λ z. t ∷ z) rest, here, (e, all))
    ],
  )
]

pub All-without :
    (P : ScheduleTask → Type 0) (id : ℕ) (tasks : List ScheduleTask)
    → All P tasks
    → All P (pick id tasks).1
unfolding pick
All-without P id [] all = tt
All-without P id (t ∷ tasks) (pt, all) = elim (Bool-cases (is_elsewhere id t)) [
  | inl e ↦ rw e (pt, All-without P id tasks all)
  | inr e ↦ rw e all
]
