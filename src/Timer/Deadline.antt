-- ===== src/Timer/Deadline.antt =====
-- The first timer of the set, and the wait until it is due.
use phase.Base.{
  ℕ, ◌-◌, ◌≤◌, ◌≡◌, refl, sym, subst, ◌∙◌, inl, inr, ◌⊎◌, true, List, [], ◌∷◌, arith, ◌==◌, All,
  Bool-cases, u64_mod,
}
use phase.Timer.State.{Heap, TimerManager, before, next_wait, get_next_timer}
use phase.Timer.Order.{member, next_of_before, due_after}
use phase.Timer.Set.{All-member}
use phase.Timer.Invariant.{has_cb, Armed, Inv}

at_head : (h : Heap) (a x : ℕ) → (a == x) ≡ true → (h a).next ≤ (h x).next
at_head h a x e =
    let eq : a ≡ x = ground arith in subst (λ y. (h a).next ≤ (h y).next) eq (omega arith)

-- The first timer of the set is the earliest.
pub head_earliest :
    (h : Heap) (a : ℕ) (l : List ℕ)
    → All (λ b. before h a b ≡ true) l
    → (x : ℕ) → member x (a ∷ l) ≡ true
    → (h a).next ≤ (h x).next
head_earliest h a l all x m = elim (Bool-cases (a == x)) [
  | inl e ↦ at_head h a x e
  | inr e ↦ next_of_before h a x (All-member (λ b. before h a b ≡ true) l x all (ground arith))
]

least_wait :
    (h : Heap) (a : ℕ) (l : List ℕ) (now : ℕ)
    → All (λ b. (h a).next ≤ (h b).next) l
    → All (λ x. next_wait h (a ∷ l) now ≤ (h x).next - now) l
least_wait h a [] now all = tt
least_wait h a (b ∷ l) now (le, all) = (ground (arith, le), least_wait h a l now all)

wait_lem :
    (h : Heap) (l : List ℕ) (now : ℕ)
    → Armed h l
    → All (λ x. next_wait h l now ≤ (h x).next - now) l
      × (((l ≡ []) × (next_wait h l now ≡ u64_mod - 1))
          ⊎ ((x : ℕ) × (has_cb h x ≡ true) × (next_wait h l now ≡ (h x).next - now)))
wait_lem h [] now v = (tt, inl (refl, refl))
wait_lem h (a ∷ l) now v = (
  (ground arith, least_wait h a l now (due_after h a (h a).next l (omega arith) (v.sorted).0)),
  inr (a, sym (v.armed a) ∙ ground arith, ground arith),
)

-- With the invariant, the wait is the largest number if no timer is armed; else it is the least time
-- to the deadline over the armed timers, zero if one is due.
pub get_next_timer_lem :
    (m : TimerManager) (now : ℕ)
    → Inv m
    → let wait = (get_next_timer m now).1 in
      All (λ x. wait ≤ (m.heap x).next - now) m.timers
      × (((m.timers ≡ []) × (wait ≡ u64_mod - 1))
          ⊎ ((x : ℕ) × (has_cb m.heap x ≡ true) × (wait ≡ (m.heap x).next - now)))
unfolding get_next_timer
get_next_timer_lem m now v = wait_lem m.heap m.timers now v
