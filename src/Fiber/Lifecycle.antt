-- ===== src/Fiber/Lifecycle.antt =====
-- The states that a fiber goes through.
use phase.Base.{
  ℕ, ◌≡◌, refl, ap, sym, ◌∙◌, inl, inr, Bool, true, false, ◌&&◌, ◌||◌, Option, none, some, arith,
  if◌then◌else◌, Bool-cases,
}
use phase.Fiber.State.{
  State, init, hold, exec, term, ready, except, Fiber, Local, same_state, create, is_over, destroy,
  reset, swap_in, swap_out, yield_to_ready, yield_to_hold, Outcome, returns, throws, main_func,
}

-- One operation on a fiber that passes all its assertions.
pub data FiberStep : Fiber → Fiber → Type 0 where
  resumed : (f f' : Fiber) (l l' : Local) → swap_in f l ≡ some (f', l') → FiberStep f f'
  yielded : (f f' : Fiber) (l l' : Local) → yield_to_ready f l ≡ some (f', l') → FiberStep f f'
  held : (f f' : Fiber) (l l' : Local) → yield_to_hold f l ≡ some (f', l') → FiberStep f f'
  ended :
      (f f' : Fiber) (l l' : Local) (o : Outcome) → main_func f l o ≡ some (f', l') → FiberStep f f'
  restarted : (f f' : Fiber) (cb : Option ℕ) → reset f cb ≡ some f' → FiberStep f f'

pub data FiberReach : Fiber → Type 0 where
  created : (id : ℕ) (cb : Option ℕ) (in_scheduler : Bool) → FiberReach (create id cb in_scheduler)
  then_step : (f f' : Fiber) → FiberReach f → FiberStep f f' → FiberReach f'

yield_to_hold_aborts : (f : Fiber) (l : Local) → yield_to_hold f l ≡ none
unfolding yield_to_hold swap_out
yield_to_hold_aborts f l = elim (Bool-cases (same_state f.state exec)) [
  | inl e ↦ rw e refl
  | inr e ↦ rw e refl
]

-- Whatever a fiber's state, YieldToHold does not get past the assertion of swapOut, and nor does
-- MainFunc when the callback has thrown.
pub held_or_thrown :
    (f : Fiber) (l : Local) → (yield_to_hold f l ≡ none) × (main_func f l throws ≡ none)
unfolding main_func swap_out
held_or_thrown f l = (yield_to_hold_aborts f l, refl)

-- The states in which an operation leaves a fiber.
abbrev pub settled : Fiber → Bool
settled f =
    f.has_stack
    && (same_state f.state ready
        || same_state f.state exec
        || same_state f.state term
        || same_state f.state init)

abbrev settled_after {ℓ} : {A : Type ℓ} → (A → Fiber) → Option A → Bool
settled_after fiber none = true
settled_after fiber (some r) = settled (fiber r)

abbrev fst : Fiber × Local → Fiber
fst r = r.0

keeps {ℓ} :
    {A : Type ℓ} (fiber : A → Fiber) (o : Option A) (r : A)
    → o ≡ some r
    → settled_after fiber o ≡ true
    → settled (fiber r) ≡ true
keeps fiber o r e s = sym (ap (settled_after fiber) e) ∙ s

swap_in_settled :
    (f : Fiber) (l : Local) → f.has_stack ≡ true → settled_after fst (swap_in f l) ≡ true
unfolding swap_in
swap_in_settled f l h = elim (Bool-cases (same_state f.state exec)) [
  | inl e ↦ rw e refl
  | inr e ↦ rw (e, h) refl
]

swap_out_from :
    (s : State) (f : Fiber) (l : Local)
    → f.has_stack ≡ true
    → settled_after fst (swap_out (record f { state = s }) l) ≡ true
unfolding swap_out
swap_out_from exec f l h = rw h refl
swap_out_from term f l h = rw h refl
swap_out_from init f l h = refl
swap_out_from hold f l h = refl
swap_out_from ready f l h = refl
swap_out_from except f l h = refl

yield_from :
    (s : State) (f : Fiber) (l : Local)
    → f.has_stack ≡ true
    → settled_after fst (yield_to_ready (record f { state = s }) l) ≡ true
unfolding yield_to_ready swap_out
yield_from exec f l h = rw h refl
yield_from term f l h = refl
yield_from init f l h = refl
yield_from hold f l h = refl
yield_from ready f l h = refl
yield_from except f l h = refl

main_settled :
    (f : Fiber) (l : Local) (o : Outcome)
    → f.has_stack ≡ true
    → settled_after fst (main_func f l o) ≡ true
unfolding main_func
main_settled f l returns h = swap_out_from term (record f { cb = none }) l h
main_settled f l throws h = swap_out_from except f l h

hold_settled : (f : Fiber) (l : Local) → settled_after fst (yield_to_hold f l) ≡ true
hold_settled f l = ap (settled_after fst) (yield_to_hold_aborts f l)

reset_settled :
    (f : Fiber) (cb : Option ℕ) → f.has_stack ≡ true → settled_after (λ g. g) (reset f cb) ≡ true
unfolding reset
reset_settled f cb h = elim (Bool-cases (is_over f.state)) [
  | inl e ↦ rw (h, e, reset) refl
  | inr e ↦ rw (h, e, reset) refl
]

has_stack_of : (f : Fiber) → settled f ≡ true → f.has_stack ≡ true
has_stack_of f e = elim (Bool-cases f.has_stack) [
  | inl h ↦ h
  | inr h ↦ absurd (ground (arith, e, h))
]

step_settled : (f f' : Fiber) → FiberStep f f' → f.has_stack ≡ true → settled f' ≡ true
step_settled _ _ (resumed f f' l l' e) h = keeps fst _ (f', l') e (swap_in_settled f l h)
step_settled _ _ (yielded f f' l l' e) h = keeps fst _ (f', l') e (yield_from f.state f l h)
step_settled _ _ (held f f' l l' e) h = keeps fst _ (f', l') e (hold_settled f l)
step_settled _ _ (ended f f' l l' o e) h = keeps fst _ (f', l') e (main_settled f l o h)
step_settled _ _ (restarted f f' cb e) h = keeps (λ g. g) _ f' e (reset_settled f cb h)

-- However a fiber with a callback is used, between operations it owns a stack and is READY, running,
-- finished or restarted: never held, and never in the state for an exception.
pub reach_settled : (f : Fiber) → FiberReach f → settled f ≡ true
reach_settled _ (created id cb in_scheduler) = unfold create in refl
reach_settled _ (then_step f f' r s) = step_settled f f' s (has_stack_of f (reach_settled f r))

-- Such a fiber is destroyed without a failed assertion exactly when it has finished or was restarted:
-- not while it waits or runs, and not if it never ran.
pub destroy_lem :
    (f : Fiber) (l : Local)
    → FiberReach f
    → destroy f l ≡ (if same_state f.state term || same_state f.state init then some l else none)
unfolding destroy
destroy_lem f l r =
    rw (has_stack_of f (reach_settled f r), destroy)
      (no_except f.state f.has_stack (reach_settled f r) l)
  where
    no_except :
        (s : State) (b : Bool)
        → (b && (same_state s ready || same_state s exec || same_state s term || same_state s init))
          ≡ true
        → (l : Local)
        → (if is_over s then some l else none)
          ≡ (if same_state s term || same_state s init then some l else none)
    no_except init b e l = refl
    no_except hold b e l = refl
    no_except exec b e l = refl
    no_except term b e l = refl
    no_except ready b e l = refl
    no_except except true e l = absurd (ground (arith, e))
    no_except except false e l = absurd (ground (arith, e))
