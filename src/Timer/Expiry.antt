-- ===== src/Timer/Expiry.antt =====
-- What listExpiredCb does to the timers.
use phase.Base.{
  ℕ, ◌*◌, ◌<◌, ◌≡◌, refl, ap, sym, subst, ◌∙◌, inl, inr, ◌⊎◌, Bool, true, false, not, ◌&&◌, ◌||◌,
  Option, none, List, [], ◌∷◌, ◌++◌, map, arith, ltb, leb, if◌then◌else◌, Bool-cases, sub64,
}
use phase.Timer.State.{
  Callback, Heap, TimerManager, detect_clock_rollover, fire, if_empty, split_expired, expire_from,
  list_expired_cb,
}
use phase.Timer.Order.{IsSorted, member}
use phase.Timer.Set.{IsSorted-append, member-append}
use phase.Timer.Invariant.{is_some, has_cb, Armed, Inv}
use phase.Timer.Firing.{Firing, fire-Fired, after_fire}
use phase.Timer.Deadline.{head_earliest}
use phase.Timer.Splitting.{split_expired_lem}

-- Whether the clock is taken to have been turned back.
abbrev pub rolled_over : TimerManager → ℕ → Bool
rolled_over m now = ltb now m.previous_time && ltb now (sub64 m.previous_time (60 * 60 * 1000))

-- What listExpiredCb does: `expired` are the timers that fire, in the order of the set.
pub record Expires (m : TimerManager) (now p : ℕ) : Type 0 where
  pub expired : List ℕ
  pub in_order : IsSorted m.heap expired
  pub exact :
      (x : ℕ)
      → member x expired ≡ (has_cb m.heap x && (rolled_over m now || leb (m.heap x).next now))
  pub callbacks : (list_expired_cb m now p).0 ≡ map (λ a. (m.heap a).cb) expired
  pub each :
      (x : ℕ)
      → (list_expired_cb m now p).1.heap x
        ≡ (if member x expired then after_fire now (m.heap x) else m.heap x)
  pub valid : Inv (list_expired_cb m now p).1

cut_fires : (h : Heap) (k r l : List ℕ) → k ++ r ≡ l → Armed h l → Firing h k r
cut_fires h k r l cut v =
    let parts = IsSorted-append h k r (subst (IsSorted h) (sym cut) v.sorted) in
    record {
      pending_sorted = parts.0;
      sorted = parts.1;
      apart = parts.2;
      armed = λ x. sym (v.armed x) ∙ ap (member x) (sym cut) ∙ member-append x k r;
    }

none_due_empty :
    (h : Heap) (l : List ℕ) (now x : ℕ) (rolled : Bool)
    → Armed h l
    → l ≡ []
    → false ≡ (has_cb h x && (rolled || leb (h x).next now))
none_due_empty h l now x rolled v e =
    let out : has_cb h x ≡ false = sym (v.armed x) ∙ ap (member x) e in rw out refl

none_due_early :
    (h : Heap) (a : ℕ) (l : List ℕ) (now x : ℕ) (rolled : Bool)
    → Armed h (a ∷ l)
    → rolled ≡ false
    → now < (h a).next
    → false ≡ (has_cb h x && (rolled || leb (h x).next now))
none_due_early h a l now x rolled v e lt = elim (Bool-cases (has_cb h x)) [
  | inl f ↦
      let le = head_earliest h a l (v.sorted).0 x (v.armed x ∙ f) in rw (e, f) (ground (arith, le))
  | inr f ↦ rw f refl
]

if_empty_nil {ℓ} : {A : Type ℓ} (l : List ℕ) (x : A) (f : ℕ → A) → l ≡ [] → if_empty l x f ≡ x
if_empty_nil l x f e = ap (λ k. if_empty k x f) e

if_empty_cons {ℓ} :
    {A : Type ℓ} (l : List ℕ) (x : A) (f : ℕ → A) (a : ℕ) (others : List ℕ)
    → l ≡ a ∷ others
    → if_empty l x f ≡ f a
if_empty_cons l x f a others e = ap (λ k. if_empty k x f) e

-- The three ways out of listExpiredCb.
cbs_empty : (m : TimerManager) (now p : ℕ) → m.timers ≡ [] → list_expired_cb m now p ≡ ([], m)
unfolding list_expired_cb
cbs_empty m now p e = if_empty_nil m.timers ([], m) (expire_from m now p) e

cbs_early :
    (m : TimerManager) (now p a : ℕ) (l : List ℕ)
    → m.timers ≡ a ∷ l
    → (not (rolled_over m now) && ltb now (m.heap a).next) ≡ true
    → list_expired_cb m now p ≡ ([], record m { previous_time = now })
unfolding list_expired_cb expire_from detect_clock_rollover
cbs_early m now p a l e f =
    if_empty_cons m.timers ([], m) (expire_from m now p) a l e ∙ rw (f, expire_from) refl

-- The manager when the loop starts, the two parts of its set, and the loop.
abbrev started : TimerManager → ℕ → TimerManager
started m now = record m { previous_time = now }

abbrev parts_at : TimerManager → ℕ → ℕ → List ℕ × List ℕ
parts_at m now p = split_expired (started m now) now p (rolled_over m now)

abbrev fired_at : TimerManager → ℕ → ℕ → List (Option Callback) × Heap × List ℕ
fired_at m now p = fire now (parts_at m now p).0 m.heap (parts_at m now p).1

cbs_fired :
    (m : TimerManager) (now p a : ℕ) (l : List ℕ)
    → m.timers ≡ a ∷ l
    → (not (rolled_over m now) && ltb now (m.heap a).next) ≡ false
    → list_expired_cb m now p ≡ (
      (fired_at m now p).0,
      record (started m now) { heap = (fired_at m now p).1; timers = (fired_at m now p).2 },
    )
unfolding list_expired_cb expire_from detect_clock_rollover
cbs_fired m now p a l e f =
    if_empty_cons m.timers ([], m) (expire_from m now p) a l e ∙ rw (f, expire_from) refl

List-cases : (l : List ℕ) → (l ≡ []) ⊎ ((a : ℕ) × (others : List ℕ) × (l ≡ a ∷ others))
List-cases [] = inl refl
List-cases (a ∷ others) = inr (a, others, refl)

expire_nothing :
    (m m' : TimerManager) (now p : ℕ)
    → list_expired_cb m now p ≡ ([], m')
    → m'.heap ≡ m.heap
    → Inv m'
    → ((x : ℕ) → false ≡ (has_cb m.heap x && (rolled_over m now || leb (m.heap x).next now)))
    → Expires m now p
expire_nothing m m' now p e same v none_due = record {
  expired = [];
  in_order = tt;
  exact = none_due;
  callbacks = ap (λ r. r.0) e;
  each = λ x. ap (λ r. r.1.heap x) e ∙ ap (λ h. h x) same;
  valid = subst (λ r. Inv r.1) (sym e) v;
}

expire_fired :
    (m : TimerManager) (now p a : ℕ) (l : List ℕ)
    → Inv m
    → (m.heap p).cb ≡ none
    → m.timers ≡ a ∷ l
    → (not (rolled_over m now) && ltb now (m.heap a).next) ≡ false
    → Expires m now p
expire_fired m now p a l v free e f =
    let parts = parts_at m now p in
    let (cut, exact) =
      split_expired_lem (started m now) now p (rolled_over m now) v (v.armed p ∙ ap is_some free) in
    let firing = cut_fires m.heap parts.0 parts.1 m.timers cut v in
    let run = fire-Fired now parts.0 m.heap parts.1 firing in
    let eq = cbs_fired m now p a l e f in
    record {
      expired = parts.0;
      in_order = firing.pending_sorted;
      exact =
          λ x. exact x ∙ ap (λ b. b && (rolled_over m now || leb (m.heap x).next now)) (v.armed x);
      callbacks = ap (λ r. r.0) eq ∙ run.callbacks;
      each = λ x. ap (λ r. r.1.heap x) eq ∙ run.each x;
      valid = subst (λ r. Inv r.1) (sym eq) run.valid;
    }

-- With the invariant, and a free address for the timer it compares with, listExpiredCb fires the armed timers
-- that are due (all of them after a rollover), in order, starts the recurring ones again from
-- now, clears the others' callbacks, touches no other timer, and keeps the invariant.
pub list_expired_cb-Expires :
    (m : TimerManager) (now p : ℕ) → Inv m → (m.heap p).cb ≡ none → Expires m now p
list_expired_cb-Expires m now p v free = elim (List-cases m.timers) [
  | inl e ↦
      expire_nothing m m now p (cbs_empty m now p e) refl v
        (λ x. none_due_empty m.heap m.timers now x (rolled_over m now) v e)
  | inr (a, l, e) ↦ elim (Bool-cases (not (rolled_over m now) && ltb now (m.heap a).next)) [
    | inl f ↦ expire_nothing m (started m now) now p (cbs_early m now p a l e f) refl v (λ x.
        none_due_early m.heap a l now x (rolled_over m now) (subst (Armed m.heap) e v)
          (ground (arith, f)) (ground (arith, f)))
    | inr f ↦ expire_fired m now p a l v free e f
  ]
]
