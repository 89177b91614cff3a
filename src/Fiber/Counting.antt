-- ===== src/Fiber/Counting.antt =====
-- The counters of the scheduler under each step.
use phase.Base.{
  ℕ, zero, suc, ◌+◌, ◌-◌, ◌≡◌, refl, ap, subst, ◌∙◌, inl, inr, Bool, true, false, not, ◌&&◌, Option,
  none, some, List, [], ◌∷◌, arith, ◌==◌, get_elem?, set, if◌then◌else◌, All, All-concat,
  Bool-cases, Option-cases,
}
use phase.Fiber.Scheduler.{
  ScheduleTask, looking, running, idling, exited, Worker, Scheduler, is_empty, has_work,
  schedule_no_lock, schedule, pick, stopping, look, finish, idle_round, stop,
}
use phase.Fiber.Picking.{All-without}

abbrev pub is_running : Worker → Bool
is_running w = elim w.place [ looking ↦ false | running t ↦ true | idling ↦ false | exited ↦ false ]

abbrev pub is_idling : Worker → Bool
is_idling w = elim w.place [ looking ↦ false | running t ↦ false | idling ↦ true | exited ↦ false ]

abbrev pub one_if : Bool → ℕ
one_if b = if b then 1 else 0

unfoldable pub count : (Worker → Bool) → List Worker → ℕ
count p [] = 0
count p (w ∷ ws) = one_if (p w) + count p ws

abbrev ones_in : (Worker → Bool) → Option Worker → ℕ
ones_in p none = 0
ones_in p (some w) = one_if (p w)

count-set :
    (p : Worker → Bool) (ws : List Worker) (i : ℕ) (w w' : Worker)
    → get_elem? ws i ≡ some w
    → count p (set ws i w') + one_if (p w) ≡ count p ws + one_if (p w')
unfolding count
count-set p [] i w w' e = absurd (ground (arith, e))
count-set p (v ∷ ws) zero w w' e = omega (arith, ap (λ o. ones_in p o) e)
count-set p (v ∷ ws) (suc i) w w' e = omega (arith, count-set p ws i w w' e)

-- The counters count the threads that run a task and those in the idle fiber; every queued task has
-- something to run; and no idle fiber has ended unless the scheduler was told to stop.
pub record Counts (s : Scheduler) : Type 0 where
  pub active : s.active_thread_count ≡ count is_running s.workers
  pub idle : s.idle_thread_count ≡ count is_idling s.workers
  pub work : All (λ t. has_work t ≡ true) s.tasks
  pub halted : All (λ w. (w.idle_term && not s.is_stopping) ≡ false) s.workers

All-set :
    (P : Worker → Type 0) (ws : List Worker) (i : ℕ) (w : Worker)
    → P w
    → All P ws
    → All P (set ws i w)
All-set P [] i w pw all = tt
All-set P (v ∷ ws) zero w pw (pv, all) = (pw, all)
All-set P (v ∷ ws) (suc i) w pw (pv, all) = (pv, All-set P ws i w pw all)

All-at :
    (P : Worker → Type 0) (ws : List Worker) (i : ℕ) (w : Worker)
    → get_elem? ws i ≡ some w
    → All P ws
    → P w
All-at P [] i w e all = absurd (ground (arith, e))
All-at P (v ∷ ws) zero w e (pv, all) = subst P (ap (λ o. elim o [ none ↦ v | some x ↦ x ]) e) pv
All-at P (v ∷ ws) (suc i) w e (pv, all) = All-at P ws i w e all

none_halts : (ws : List Worker) → All (λ w. (w.idle_term && not true) ≡ false) ws
none_halts [] = tt
none_halts (w ∷ ws) =
    (elim (Bool-cases w.idle_term) [ inl e ↦ rw e refl | inr e ↦ rw e refl ], none_halts ws)

-- What becomes of a count when a worker moves from one place to another.
recount :
    (p : Worker → Bool) (ws : List Worker) (i : ℕ) (w w' : Worker) (n : ℕ) (a b : Bool)
    → get_elem? ws i ≡ some w
    → n ≡ count p ws
    → p w ≡ a
    → p w' ≡ b
    → n + one_if b - one_if a ≡ count p (set ws i w')
recount p ws i w w' n a b e h old new =
    omega (arith, count-set p ws i w w' e, ap one_if old, ap one_if new)

not_running : (w : Worker) → w.place ≡ looking → is_running w ≡ false
not_running w e = rw e refl

not_idling : (w : Worker) → w.place ≡ looking → is_idling w ≡ false
not_idling w e = rw e refl

branch : (P : Scheduler → Type 0) (b : Bool) (x y : Scheduler) → P x → P y → P (if b then x else y)
branch P true x y px py = px
branch P false x y px py = py

pub schedule-Counts : (s : Scheduler) (t : ScheduleTask) → Counts s → Counts (schedule s t)
unfolding schedule schedule_no_lock
schedule-Counts s t v = record {
  active = v.active;
  idle = v.idle;
  work = elim (Bool-cases (has_work t)) [
    | inl e ↦ rw e (All-concat (λ u. has_work u ≡ true) s.tasks (t ∷ []) v.work (e, tt))
    | inr e ↦ rw e v.work
  ];
  halted = v.halted;
}

pub look-Counts :
    (s : Scheduler) (i : ℕ) (w : Worker)
    → get_elem? s.workers i ≡ some w
    → w.place ≡ looking
    → Counts s
    → Counts (look s i w)
unfolding look
look-Counts s i w e at v =
    let work = All-without (λ u. has_work u ≡ true) w.thread_id s.tasks v.work in
    let ended = All-at (λ u. (u.idle_term && not s.is_stopping) ≡ false) s.workers i w e v.halted in
    let halted = λ (w' : Worker) (same : w'.idle_term ≡ w.idle_term).
      All-set (λ u. (u.idle_term && not s.is_stopping) ≡ false) s.workers i w'
        (ap (λ b. b && not s.is_stopping) same ∙ ended) v.halted in
    elim (Option-cases (pick w.thread_id s.tasks).0) [
      | inr (t, f) ↦
          let w' : Worker = record w { place = running t } in
          rw (f, look)
            (record {
              active = omega (
                arith,
                recount is_running s.workers i w w' _ false true e v.active (not_running w at) refl,
              );
              idle = omega (
                arith,
                recount is_idling s.workers i w w' _ false false e v.idle (not_idling w at) refl,
              );
              work = work;
              halted = halted w' refl;
            })
      | inl f ↦
          rw (f, look)
            (branch Counts w.idle_term _ _
              (let w' : Worker = record w { place = exited } in
                (record {
                  active = omega (
                    arith,
                    recount is_running s.workers i w w' _ false false e v.active (not_running w at)
                        refl,
                  );
                  idle = omega (
                    arith,
                    recount is_idling s.workers i w w' _ false false e v.idle (not_idling w at)
                        refl,
                  );
                  work = work;
                  halted = halted w' refl;
                }))
              (let w' : Worker = record w { place = idling } in
                (record {
                  active = omega (
                    arith,
                    recount is_running s.workers i w w' _ false false e v.active (not_running w at)
                        refl,
                  );
                  idle = omega (
                    arith,
                    recount is_idling s.workers i w w' _ false true e v.idle (not_idling w at) refl,
                  );
                  work = work;
                  halted = halted w' refl;
                })))
    ]

pub finish-Counts :
    (s : Scheduler) (i : ℕ) (w : Worker) (t : ScheduleTask)
    → get_elem? s.workers i ≡ some w
    → w.place ≡ running t
    → Counts s
    → Counts (finish s i w)
unfolding finish
finish-Counts s i w t e at v =
    let w' : Worker = record w { place = looking } in
    record {
      active =
          omega
            (arith, recount is_running s.workers i w w' _ true false e v.active (rw at refl) refl);
      idle =
          omega
            (arith, recount is_idling s.workers i w w' _ false false e v.idle (rw at refl) refl);
      work = v.work;
      halted =
          All-set (λ u. (u.idle_term && not s.is_stopping) ≡ false) s.workers i w'
            (All-at (λ u. (u.idle_term && not s.is_stopping) ≡ false) s.workers i w e v.halted)
            v.halted;
    }

stopping_flag : (s : Scheduler) → (stopping s && not s.is_stopping) ≡ false
unfolding stopping
stopping_flag s = elim (Bool-cases s.is_stopping) [
  | inl e ↦ rw (e, stopping) (ended (is_empty s.tasks && (s.active_thread_count == 0)))
  | inr e ↦ rw (e, stopping) refl
]
  where
    ended : (b : Bool) → (b && false) ≡ false
    ended true = refl
    ended false = refl

pub idle_round-Counts :
    (s : Scheduler) (i : ℕ) (w : Worker)
    → get_elem? s.workers i ≡ some w
    → w.place ≡ idling
    → Counts s
    → Counts (idle_round s i w)
unfolding idle_round
idle_round-Counts s i w e at v =
    let w' : Worker = record w { place = looking; idle_term = stopping s } in
    record {
      active =
          omega
            (arith, recount is_running s.workers i w w' _ false false e v.active (rw at refl) refl);
      idle =
          omega (arith, recount is_idling s.workers i w w' _ true false e v.idle (rw at refl) refl);
      work = v.work;
      halted =
          All-set (λ u. (u.idle_term && not s.is_stopping) ≡ false) s.workers i w' (stopping_flag s)
            v.halted;
    }

pub stop-Counts : (s : Scheduler) (n : ℕ) (root : Bool) → Counts s → Counts (stop s n root)
unfolding stop
stop-Counts s n root v = elim (Bool-cases (stopping s)) [
  | inl e ↦ rw (e, stop) v
  | inr e ↦
      rw (e, stop)
        (record { active = v.active; idle = v.idle; work = v.work; halted = none_halts s.workers })
]
