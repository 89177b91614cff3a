-- ===== src/IoManager/Context.antt =====
-- One context: its flags say which of its two event contexts are filled in.
use phase.Base.{
  ℕ, suc, ◌+◌, ◌≡◌, refl, ap, subst, Bool, true, false, not, ◌&&◌, ◌||◌, Option, none, some, List,
  arith, length, if◌then◌else◌, [], ◌∷◌,
}
use phase.IoManager.State.{
  callback, fiber, is_free, Event, no_event, read_event, write_event, Waiter, EventContext,
  FdContext, has, mark, get_event_context, put_event_context, disarm, waiter_of, trigger_event,
}

abbrev pub is_some {ℓ} : {A : Type ℓ} → Option A → Bool
is_some none = false
is_some (some a) = true

abbrev pub valid_half : Bool → EventContext → Bool
valid_half on x =
    if on
    then is_some x.scheduler && (is_some x.cb || is_some x.fiber)
    else not (is_some x.scheduler || is_some x.cb || is_some x.fiber)

abbrev pub valid_context : FdContext → Bool
valid_context c = valid_half c.read_on c.read && valid_half c.write_on c.write

abbrev pub one_if : Bool → ℕ
one_if b = if b then 1 else 0

-- The number of events that are waited for.
abbrev pub armed : FdContext → ℕ
armed c = one_if c.read_on + one_if c.write_on

pub both : (a b : Bool) → (a && b) ≡ true → (a ≡ true) × (b ≡ true)
both true b e = (refl, e)
both false b e = absurd (ground (arith, e))

joined : (a b : Bool) → a ≡ true → b ≡ true → (a && b) ≡ true
joined a b e f = rw (e, f) refl

pub disarm_valid :
    (c : FdContext) (event : Event) → valid_context c ≡ true → valid_context (disarm c event) ≡ true
disarm_valid c no_event v = v
disarm_valid c read_event v = (both _ _ v).1
disarm_valid c write_event v = joined _ _ (both _ _ v).0 refl

pub disarm_armed :
    (c : FdContext) (event : Event) → has c event ≡ true → armed c ≡ suc (armed (disarm c event))
disarm_armed c no_event h = absurd (ground (arith, h))
disarm_armed c read_event h = rw h (omega arith)
disarm_armed c write_event h = rw h (omega arith)

-- Who waits: the callback, or else the fiber.
abbrev pub waiters_of : Option ℕ → Option ℕ → List Waiter
waiters_of (some f) g = callback f ∷ []
waiters_of none (some g) = fiber g ∷ []
waiters_of none none = []

abbrev pub waiters : FdContext → Event → List Waiter
waiters c no_event = []
waiters c read_event = waiters_of c.read.cb c.read.fiber
waiters c write_event = waiters_of c.write.cb c.write.fiber

same_waiters :
    (s cb g : Option ℕ) → waiter_of (record { scheduler = s; fiber = g; cb = cb }) ≡ waiters_of cb g
same_waiters s none none = refl
same_waiters s none (some g) = refl
same_waiters s (some f) g = refl

full_half :
    (x : EventContext)
    → valid_half true x ≡ true
    → ((s : ℕ) × (x.scheduler ≡ some s)) × (length (waiters_of x.cb x.fiber) ≡ 1)
full_half x v = (scheduler_of x.scheduler (both _ _ v).0, one_waiter x.cb x.fiber (both _ _ v).1)
  where
    scheduler_of : (o : Option ℕ) → is_some o ≡ true → (s : ℕ) × (o ≡ some s)
    scheduler_of none e = absurd (ground (arith, e))
    scheduler_of (some s) e = (s, refl)

    one_waiter : (cb g : Option ℕ) → (is_some cb || is_some g) ≡ true → length (waiters_of cb g) ≡ 1
    one_waiter (some f) g e = refl
    one_waiter none (some g) e = refl
    one_waiter none none e = absurd (ground (arith, e))

-- A trigger of an event that a valid context waits for: its waiter is scheduled, which is one.
pub trigger_lem :
    (c : FdContext) (event : Event)
    → valid_context c ≡ true
    → has c event ≡ true
    → (trigger_event c event ≡ some (disarm c event, waiters c event))
      × (length (waiters c event) ≡ 1)
unfolding trigger_event get_event_context
trigger_lem c no_event v h = absurd (ground (arith, h))
trigger_lem c read_event v h =
    let full = full_half c.read (subst (λ b. valid_half b c.read ≡ true) h (both _ _ v).0) in
    (
      rw (h, full.0.1)
          (ap (λ ws. some (disarm c read_event, ws))
            (same_waiters c.read.scheduler c.read.cb c.read.fiber)),
      full.1,
    )
trigger_lem c write_event v h =
    let full = full_half c.write (subst (λ b. valid_half b c.write ≡ true) h (both _ _ v).1) in
    (
      rw (h, full.0.1)
          (ap (λ ws. some (disarm c write_event, ws))
            (same_waiters c.write.scheduler c.write.cb c.write.fiber)),
      full.1,
    )

-- The context with `x` waiting for an event.
abbrev pub enable : FdContext → Event → EventContext → FdContext
enable c event x = put_event_context (mark c event true) event x

pub free_half : (x : EventContext) → valid_half false x ≡ true → is_free x ≡ true
free_half x v = nobody x.scheduler x.fiber x.cb v
  where
    nobody :
        (s g cb : Option ℕ)
        → not (is_some s || is_some cb || is_some g) ≡ true
        → is_free (record { scheduler = s; fiber = g; cb = cb }) ≡ true
    nobody none none none e = refl
    nobody none none (some f) e = absurd (ground (arith, e))
    nobody none (some g) none e = absurd (ground (arith, e))
    nobody none (some g) (some f) e = absurd (ground (arith, e))
    nobody (some s) g none e = absurd (grind (arith, e))
    nobody (some s) g (some f) e = absurd (grind (arith, e))

pub enable_valid :
    (c : FdContext) (event : Event) (x : EventContext)
    → valid_context c ≡ true
    → valid_half true x ≡ true
    → valid_context (enable c event x) ≡ true
enable_valid c no_event x v w = v
enable_valid c read_event x v w = joined _ _ w (both _ _ v).1
enable_valid c write_event x v w = joined _ _ (both _ _ v).0 w

pub no_more : (c : FdContext) (event : Event) → has (disarm c event) event ≡ false
no_more c no_event = refl
no_more c read_event = refl
no_more c write_event = refl
