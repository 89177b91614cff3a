-- ===== src/IoManager/Pending.antt =====
-- The operations of IOManager keep every context valid and the pending count exact.
use phase.Base.{
  ℕ, zero, suc, ◌+◌, ◌≡◌, refl, ap, sym, subst, ◌∙◌, inl, inr, Bool, true, false, not, ◌&&◌, Option,
  none, some, List, [], ◌∷◌, ◌++◌, arith, length, get_elem?, set, All, Bool-cases, Option-cases,
  if◌then◌else◌,
}
use phase.IoManager.State.{
  Event, Waiter, FdContext, IoManager, has, disarm, dec64, put_context, fire_event, answered,
  cancel_event,
}
use phase.IoManager.Context.{
  valid_context, armed, one_if, disarm_valid, disarm_armed, no_more, trigger_lem, waiters,
}

unfoldable pub all_armed : List FdContext → ℕ
all_armed [] = 0
all_armed (c ∷ cs) = armed c + all_armed cs

-- Every context is valid, and the pending count is the number of events that are waited for.
pub record Inv (m : IoManager) : Type 0 where
  pub valid : All (λ c. valid_context c ≡ true) m.contexts
  pub counted : m.pending_event_count ≡ all_armed m.contexts

abbrev armed_in : Option FdContext → ℕ
armed_in none = 0
armed_in (some c) = armed c

pub all_armed-set :
    (cs : List FdContext) (fd : ℕ) (c c' : FdContext)
    → get_elem? cs fd ≡ some c
    → all_armed (set cs fd c') + armed c ≡ all_armed cs + armed c'
unfolding all_armed
all_armed-set [] fd c c' e = absurd (ground (arith, e))
all_armed-set (d ∷ cs) zero c c' e = omega (arith, ap armed_in e)
all_armed-set (d ∷ cs) (suc fd) c c' e = omega (arith, all_armed-set cs fd c c' e)

pub All-put :
    (P : FdContext → Type 0) (cs : List FdContext) (fd : ℕ) (c : FdContext)
    → P c
    → All P cs
    → All P (set cs fd c)
All-put P [] fd c pc all = tt
All-put P (d ∷ cs) zero c pc (pd, all) = (pc, all)
All-put P (d ∷ cs) (suc fd) c pc (pd, all) = (pd, All-put P cs fd c pc all)

pub All-get :
    (P : FdContext → Type 0) (cs : List FdContext) (fd : ℕ) (c : FdContext)
    → get_elem? cs fd ≡ some c
    → All P cs
    → P c
All-get P [] fd c e all = absurd (ground (arith, e))
All-get P (d ∷ cs) zero c e (pd, all) = subst P (ap (λ o. elim o [ none ↦ d | some x ↦ x ]) e) pd
All-get P (d ∷ cs) (suc fd) c e (pd, all) = All-get P cs fd c e all

pub got_back :
    (cs : List FdContext) (fd : ℕ) (c c' : FdContext)
    → get_elem? cs fd ≡ some c
    → get_elem? (set cs fd c') fd ≡ some c'
got_back [] fd c c' e = absurd (ground (arith, e))
got_back (d ∷ cs) zero c c' e = refl
got_back (d ∷ cs) (suc fd) c c' e = got_back cs fd c c' e

-- A manager that has lost one event of the context at `fd`, and scheduled what waited for it.
abbrev pub lowered : IoManager → ℕ → FdContext → Event → List Waiter → IoManager
lowered m fd c event ws = record (put_context m fd (disarm c event)) {
  pending_event_count = dec64 m.pending_event_count;
  scheduled = m.scheduled ++ ws;
}

pub lowered-Inv :
    (m : IoManager) (fd : ℕ) (c : FdContext) (event : Event) (ws : List Waiter)
    → Inv m
    → get_elem? m.contexts fd ≡ some c
    → has c event ≡ true
    → Inv (lowered m fd c event ws)
lowered-Inv m fd c event ws v e h =
    let ok = All-get (λ d. valid_context d ≡ true) m.contexts fd c e v.valid in
    record {
      valid =
          All-put (λ d. valid_context d ≡ true) m.contexts fd (disarm c event)
            (disarm_valid c event ok) v.valid;
      counted =
          one_less m.pending_event_count (all_armed m.contexts)
            (all_armed (set m.contexts fd (disarm c event))) v.counted
            (omega
              (arith, all_armed-set m.contexts fd c (disarm c event) e, disarm_armed c event h));
    }
  where
    one_less : (n a b : ℕ) → n ≡ a → a ≡ suc b → dec64 n ≡ b
    one_less n a b e f = ground arith

-- fire_event on an event that is waited for.
pub record Fires (m : IoManager) (fd : ℕ) (c : FdContext) (event : Event) : Type 0 where
  pub one : length (waiters c event) ≡ 1
  pub returns :
      fire_event m fd c event ≡ some (disarm c event, lowered m fd c event (waiters c event))
  pub valid : Inv (lowered m fd c event (waiters c event))
  pub at : get_elem? (lowered m fd c event (waiters c event)).contexts fd ≡ some (disarm c event)

pub fire_event-Fires :
    (m : IoManager) (fd : ℕ) (c : FdContext) (event : Event)
    → Inv m
    → get_elem? m.contexts fd ≡ some c
    → has c event ≡ true
    → Fires m fd c event
unfolding fire_event
fire_event-Fires m fd c event v e h =
    let ok = All-get (λ d. valid_context d ≡ true) m.contexts fd c e v.valid in
    let (fires, one) = trigger_lem c event ok h in
    record {
      one = one;
      returns = rw (fires, fire_event) refl;
      valid = lowered-Inv m fd c event (waiters c event) v e h;
      at = got_back m.contexts fd c (disarm c event) e;
    }

abbrev pub has_in : Option FdContext → Event → Bool
has_in none event = false
has_in (some c) event = has c event

-- Whether an event of a descriptor is waited for.
abbrev pub waits : IoManager → ℕ → Event → Bool
waits m fd event = has_in (get_elem? m.contexts fd) event

pub waits_at :
    (m : IoManager) (fd : ℕ) (event : Event) (c : FdContext)
    → get_elem? m.contexts fd ≡ some c
    → waits m fd event ≡ has c event
waits_at m fd event c e = ap (λ o. has_in o event) e

cancel_fires :
    (m : IoManager) (fd : ℕ) (event : Event) (c : FdContext)
    → get_elem? m.contexts fd ≡ some c
    → has c event ≡ true
    → cancel_event m fd event false ≡ answered (fire_event m fd c event)
unfolding cancel_event
cancel_fires m fd event c e h = rw (e, cancel_event) (rw h refl)

cancel_failed :
    (m : IoManager) (fd : ℕ) (event : Event) (c : FdContext)
    → get_elem? m.contexts fd ≡ some c
    → has c event ≡ true
    → cancel_event m fd event true ≡ some (false, m)
unfolding cancel_event
cancel_failed m fd event c e h = rw (e, cancel_event) (rw h refl)

-- Who waits for an event of a descriptor.
abbrev pub waiters_at : IoManager → ℕ → Event → List Waiter
waiters_at m fd event = elim (get_elem? m.contexts fd) [ none ↦ [] | some c ↦ waiters c event ]

abbrev pub list_if {ℓ} : {A : Type ℓ} → Bool → List A → List A
list_if b l = if b then l else []

pub append_nil {ℓ} : {A : Type ℓ} (l : List A) → l ++ [] ≡ l
append_nil [] = refl
append_nil (x ∷ l) = ap (λ r. x ∷ r) (append_nil l)

-- What cancelEvent promises.
abbrev pub Cancels : IoManager → ℕ → Event → Bool → Type 0
Cancels m fd event fails =
    let done = waits m fd event && not fails in
    (m' : IoManager) × (cancel_event m fd event fails ≡ some (done, m'))
    × Inv m'
    × (m'.scheduled ≡ m.scheduled ++ list_if done (waiters_at m fd event))
    × (length (list_if done (waiters_at m fd event)) ≡ one_if done)
    × (waits m' fd event ≡ (waits m fd event && fails))

untouched :
    (m : IoManager) (fd : ℕ) (event : Event) (fails : Bool)
    → Inv m
    → cancel_event m fd event fails ≡ some (false, m)
    → (waits m fd event && not fails) ≡ false
    → waits m fd event ≡ (waits m fd event && fails)
    → Cancels m fd event fails
untouched m fd event fails v e w w' = (
  m,
  e ∙ ap (λ b. some (b, m)) (sym w),
  v,
  sym (append_nil m.scheduled) ∙ ap (λ b. m.scheduled ++ list_if b (waiters_at m fd event)) (sym w),
  ap (λ b. length (list_if b (waiters_at m fd event))) w ∙ ap one_if (sym w),
  w',
)

cancel_here :
    (m : IoManager) (fd : ℕ) (event : Event) (fails : Bool)
    → Inv m
    → (c : FdContext) → get_elem? m.contexts fd ≡ some c
    → has c event ≡ true
    → Cancels m fd event fails
cancel_here m fd event true v c e h =
    let w : waits m fd event ≡ true = waits_at m fd event c e ∙ h in
    untouched m fd event true v (cancel_failed m fd event c e h) (ap (λ b. b && false) w)
      (w ∙ ap (λ b. b && true) (sym w))
cancel_here m fd event false v c e h =
    let f = fire_event-Fires m fd c event v e h in
    let there : waits m fd event ≡ true = waits_at m fd event c e ∙ h in
    let listed : list_if (waits m fd event && true) (waiters_at m fd event) ≡ waiters c event =
      ap (λ b. list_if (b && true) (waiters_at m fd event)) there
      ∙ ap (λ (o : Option FdContext). elim o [ none ↦ [] | some d ↦ waiters d event ]) e in
    (
      lowered m fd c event (waiters c event),
      cancel_fires m fd event c e h
          ∙ ap answered f.returns
          ∙ ap (λ b. some (b && true, lowered m fd c event (waiters c event))) (sym there),
      f.valid,
      ap (λ l. m.scheduled ++ l) (sym listed),
      ap length listed ∙ f.one ∙ ap (λ b. one_if (b && true)) (sym there),
      waits_at (lowered m fd c event (waiters c event)) fd event (disarm c event) f.at
          ∙ no_more c event
          ∙ sym (ap (λ b. b && false) there),
    )

-- With the invariant, cancelEvent passes its assertions and keeps the invariant. It answers whether the
-- event was waited for and epoll_ctl did not fail; then its callback, or else its fiber, is scheduled, and the
-- event is no longer waited for; otherwise nothing is scheduled and it is waited for as before.
pub cancel_event-Inv :
    (m : IoManager) (fd : ℕ) (event : Event) (fails : Bool) → Inv m → Cancels m fd event fails
unfolding cancel_event
cancel_event-Inv m fd event fails v = elim (Option-cases (get_elem? m.contexts fd)) [
  | inl e ↦
      let w : waits m fd event ≡ false = ap (λ o. has_in o event) e in
      untouched m fd event fails v (rw (e, cancel_event) refl) (ap (λ b. b && not fails) w)
        (w ∙ ap (λ b. b && fails) (sym w))
  | inr (c, e) ↦ elim (Bool-cases (has c event)) [
    | inr h ↦
        let w : waits m fd event ≡ false = waits_at m fd event c e ∙ h in
        untouched m fd event fails v (rw (e, cancel_event) (rw h refl)) (ap (λ b. b && not fails) w)
          (w ∙ ap (λ b. b && fails) (sym w))
    | inl h ↦ cancel_here m fd event fails v c e h
  ]
]
