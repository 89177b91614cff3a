-- ===== src/Timer/Invariant.antt =====
-- Adding, cancelling and moving a timer: the set is sorted and holds the timers with a callback.
use phase.Base.{
  ℕ, ◌+◌, ◌≡◌, ◌≢◌, refl, ap, sym, subst, ◌∙◌, inl, inr, Bool, true, false, not, ◌&&◌, ◌||◌, Option,
  none, some, List, arith, ◌==◌, if◌then◌else◌, Bool-cases, Option-cases, add64, sub64,
}
use phase.Timer.State.{
  Callback, Timer, Heap, is_first, TimerManager, update, set_insert, add_timer_locked, add_timer,
  cancel, refresh, reset,
}
use phase.Timer.Order.{IsSorted, retimed, IsSorted-update, member}
use phase.Timer.Set.{member-set_insert, set_insert-IsSorted, Erased, set_erase-Erased}

abbrev pub is_some {ℓ} : {A : Type ℓ} → Option A → Bool
is_some none = false
is_some (some a) = true

abbrev pub has_cb : Heap → ℕ → Bool
has_cb h x = is_some (h x).cb

-- The set is in order and holds exactly the timers with a callback.
pub record Armed (h : Heap) (l : List ℕ) : Type 0 where
  pub sorted : IsSorted h l
  pub armed : (x : ℕ) → member x l ≡ has_cb h x

abbrev pub Inv : TimerManager → Type 0
Inv m = Armed m.heap m.timers

member_set :
    (h : Heap) (p : ℕ) (t : Timer) (x : ℕ) (l : List ℕ)
    → is_some t.cb ≡ true
    → (p ≢ x → member x l ≡ has_cb h x)
    → (if p == x then true else member x l) ≡ has_cb (update h p t) x
member_set h p t x l some_cb rest = elim (Bool-cases (p == x)) [
  | inl e ↦ rw e (sym some_cb)
  | inr e ↦ rw e (rest (ground arith))
]

-- A timer outside the set that gets a callback and a time, and is put in.
pub insert-Armed :
    (h : Heap) (p : ℕ) (t : Timer) (l : List ℕ)
    → IsSorted h l
    → member p l ≡ false
    → ((x : ℕ) → p ≢ x → member x l ≡ has_cb h x)
    → is_some t.cb ≡ true
    → Armed (update h p t) (set_insert (update h p t) p l)
insert-Armed h p t l s out rest some_cb =
    let g = update h p t in
    record {
      sorted = set_insert-IsSorted g p l (IsSorted-update h p t l out s);
      armed = λ x. member-set_insert g p l x ∙ member_set h p t x l some_cb (rest x);
    }

member_cleared :
    (h : Heap) (p : ℕ) (t : Timer) (x : ℕ) (l : List ℕ)
    → t.cb ≡ none
    → member p l ≡ false
    → (p ≢ x → member x l ≡ has_cb h x)
    → member x l ≡ has_cb (update h p t) x
member_cleared h p t x l no_cb out rest = elim (Bool-cases (p == x)) [
  | inl e ↦ rw (e, no_cb) (subst (λ y. member y l ≡ false) (ground arith) out)
  | inr e ↦ rw e (rest (ground arith))
]

-- A timer outside the set that loses its callback.
pub clear-Armed :
    (h : Heap) (p : ℕ) (t : Timer) (l : List ℕ)
    → IsSorted h l
    → member p l ≡ false
    → ((x : ℕ) → p ≢ x → member x l ≡ has_cb h x)
    → t.cb ≡ none
    → Armed (update h p t) l
clear-Armed h p t l s out rest no_cb = record {
  sorted = IsSorted-update h p t l out s;
  armed = λ x. member_cleared h p t x l no_cb out (rest x);
}

others_kept :
    (h : Heap) (p : ℕ) (l rest : List ℕ)
    → ((x : ℕ) → p ≢ x → member x rest ≡ member x l)
    → Armed h l
    → (x : ℕ) → p ≢ x
    → member x rest ≡ has_cb h x
others_kept h p l rest kept v x ne = kept x ne ∙ v.armed x

erase_one : (h : Heap) (p : ℕ) (l : List ℕ) → Armed h l → has_cb h p ≡ true → Erased h p l
erase_one h p l v e = set_erase-Erased h p l v.sorted (v.armed p ∙ e)

or_marked : (a b : Bool) → (if a && not b then true else b) ≡ (a || b)
or_marked true true = refl
or_marked true false = refl
or_marked false b = refl

-- With the invariant and no callback at the address yet, addTimer of a callback keeps the invariant,
-- makes the timer due a period from now and puts it into the set beside the others, and wakes the
-- manager up once if the timer is the first, unless that was done already: the mark that it was done is
-- set then, and no other timer changes.
pub add_timer-Inv :
    (m : TimerManager) (now p ms : ℕ) (cb : Callback) (recurring : Bool)
    → Inv m
    → (m.heap p).cb ≡ none
    → let m' = add_timer m now p ms (some cb) recurring in
      Inv m'
      × ((m'.heap p).next ≡ add64 now ms)
      × ((x : ℕ) → member x m'.timers ≡ (if p == x then true else member x m.timers))
      × (m'.wakeups ≡ (if is_first p m'.timers && not m.tickled then m.wakeups + 1 else m.wakeups))
      × (m'.tickled ≡ (is_first p m'.timers || m.tickled))
      × ((x : ℕ)
          → m'.heap x ≡ (
              if p == x
              then record { recurring = recurring; ms = ms; next = add64 now ms; cb = some cb }
              else m.heap x))
unfolding add_timer add_timer_locked
add_timer-Inv m now p ms cb recurring v fresh =
    let t : Timer = record { recurring = recurring; ms = ms; next = add64 now ms; cb = some cb } in
    let out : member p m.timers ≡ false = v.armed p ∙ ap is_some fresh in
    (
      insert-Armed m.heap p t m.timers v.sorted out (λ x ne. v.armed x) refl,
      ground arith,
      member-set_insert (update m.heap p t) p m.timers,
      refl,
      or_marked (is_first p (set_insert (update m.heap p t) p m.timers)) m.tickled,
      λ x. refl,
    )

same_next :
    (h : Heap) (p : ℕ) (t : Timer)
    → t.next ≡ (h p).next
    → (x : ℕ) → (update h p t x).next ≡ (h x).next
same_next h p t e x = elim (Bool-cases (p == x)) [
  | inl f ↦ rw (f, e) (ap (λ y. (h y).next) (ground arith))
  | inr f ↦ rw f refl
]

pub update_self : (h : Heap) (p : ℕ) (t : Timer) → update h p t p ≡ t
update_self h p t = ground arith

same_cb :
    (h : Heap) (p : ℕ) (t : Timer)
    → t.cb ≡ (h p).cb
    → (x : ℕ) → has_cb (update h p t) x ≡ has_cb h x
same_cb h p t e x = elim (Bool-cases (p == x)) [
  | inl f ↦ rw (f, e) (ap (λ y. is_some (h y).cb) (ground arith))
  | inr f ↦ rw f refl
]

cleared_same :
    (h : Heap) (p : ℕ)
    → (h p).cb ≡ none
    → (x : ℕ) → h x ≡ (if p == x then record (h p) { cb = none } else h x)
cleared_same h p e x = elim (Bool-cases (p == x)) [
  | inl f ↦
      let same : p ≡ x = ground arith in
      rw f (ap h (sym same) ∙ ap (λ c. record (h p) { cb = c }) e)
  | inr f ↦ rw f refl
]

pub other_cb : (h : Heap) (p : ℕ) (t : Timer) (x : ℕ) → p ≢ x → has_cb (update h p t) x ≡ has_cb h x
other_cb h p t x ne = ground arith

-- With the invariant, cancel never erases the end of the set: it returns whether there was a
-- callback, clears it, changes nothing else of any timer, signals nobody, and keeps the invariant.
pub cancel-Inv :
    (m : TimerManager) (p : ℕ)
    → Inv m
    → (m' : TimerManager) × (cancel m p ≡ some (m', has_cb m.heap p))
      × Inv m'
      × ((x : ℕ) → m'.heap x ≡ (if p == x then record (m.heap p) { cb = none } else m.heap x))
      × (m'.wakeups ≡ m.wakeups)
      × (m'.tickled ≡ m.tickled)
unfolding cancel
cancel-Inv m p v = elim (Option-cases (m.heap p).cb) [
  | inl e ↦ (m, rw (e, cancel) refl, v, cleared_same m.heap p e, refl, refl)
  | inr (cb, e) ↦
      let t : Timer = record (m.heap p) { cb = none } in
      let g : Heap = update m.heap p t in
      let er =
        set_erase-Erased g p m.timers
          (retimed m.heap g m.timers (same_next m.heap p t refl) v.sorted)
          (v.armed p ∙ ap is_some e) in
      (
        record m { heap = g; timers = er.rest },
        rw (e, er.found, cancel) refl,
        record {
          sorted = er.sorted;
          armed = λ x.
              member_cleared m.heap p t x er.rest refl er.gone
                (others_kept m.heap p m.timers er.rest er.kept v x);
        },
        λ x. refl,
        refl,
        refl,
      )
]

-- A timer in the set is taken out, changed, and put in again.
move-Armed :
    (h : Heap) (p : ℕ) (t : Timer) (l : List ℕ)
    → Armed h l
    → (er : Erased h p l) → is_some t.cb ≡ true
    → Armed (update h p t) (set_insert (update h p t) p er.rest)
move-Armed h p t l v er some_cb =
    insert-Armed h p t er.rest er.sorted er.gone (others_kept h p l er.rest er.kept v) some_cb

-- With the invariant, refresh keeps it and returns whether there is a callback; if so the timer is
-- due a period from now. No callback changes.
pub refresh-Inv :
    (m : TimerManager) (now p : ℕ)
    → Inv m
    → let r = refresh m now p in
      Inv r.0
      × (r.1 ≡ has_cb m.heap p)
      × (((r.0).heap p).next
          ≡ (if has_cb m.heap p then add64 now (m.heap p).ms else (m.heap p).next))
      × ((x : ℕ) → has_cb (r.0).heap x ≡ has_cb m.heap x)
unfolding refresh
refresh-Inv m now p v = elim (Option-cases (m.heap p).cb) [
  | inl e ↦ rw (e, refresh) (v, refl, refl, λ x. refl)
  | inr (cb, e) ↦
      let t : Timer = record (m.heap p) { next = add64 now (m.heap p).ms } in
      let er = erase_one m.heap p m.timers v (ap is_some e) in
      rw (e, er.found, refresh)
        (
          move-Armed m.heap p t m.timers v er (ap is_some e),
          refl,
          ap (λ x. x.next) (update_self m.heap p t),
          same_cb m.heap p t refl,
        )
]

-- Whether reset leaves the timer as it is before it looks at the set.
abbrev pub unchanged : Timer → ℕ → Bool → Bool
unchanged t ms from_now = ms == t.ms && not from_now

-- The time that reset gives.
abbrev pub reset_next : Timer → ℕ → ℕ → Bool → ℕ
reset_next t now ms from_now = add64 (if from_now then now else sub64 t.next t.ms) ms

or_false : (b : Bool) → b ≡ (b || false)
or_false true = refl
or_false false = refl

or_comm : (a b : Bool) → (a || b) ≡ (b || a)
or_comm true true = refl
or_comm true false = refl
or_comm false true = refl
or_comm false false = refl

woken_once :
    (n : ℕ) (first marked : Bool)
    → (if first && not marked then n + 1 else n) ≡ n + (if first && not marked then 1 else 0)
woken_once n true true = omega arith
woken_once n true false = refl
woken_once n false marked = omega arith

-- With the invariant, reset keeps it and returns whether there is a callback, or true if nothing is
-- to change; a timer with a callback is else due a new period from now, or from the start of the old
-- one, has the new period, and is back in the set. Nothing else of any timer changes, and if the timer is
-- now the first, the manager is woken up once, unless that was done already.
pub reset-Inv :
    (m : TimerManager) (now p ms : ℕ) (from_now : Bool)
    → Inv m
    → let r = reset m now p ms from_now in
      let same = unchanged (m.heap p) ms from_now in
      Inv r.0
      × (r.1 ≡ (same || has_cb m.heap p))
      × (((r.0).heap p).next ≡ (
          if same || not (has_cb m.heap p)
          then (m.heap p).next
          else reset_next (m.heap p) now ms from_now))
      × ((x : ℕ)
          → (r.0).heap x ≡ (
              if not same && has_cb m.heap p && p == x
              then record (m.heap p) { ms = ms; next = reset_next (m.heap p) now ms from_now }
              else m.heap x))
      × ((r.0).wakeups
          ≡ m.wakeups
            + (if not same && has_cb m.heap p && is_first p (r.0).timers && not m.tickled
                then 1
                else 0))
      × ((r.0).tickled ≡ (m.tickled || (not same && has_cb m.heap p && is_first p (r.0).timers)))
unfolding reset add_timer_locked
reset-Inv m now p ms from_now v = elim (Bool-cases (unchanged (m.heap p) ms from_now)) [
  | inl f ↦ rw f (v, refl, refl, λ x. refl, omega arith, or_false m.tickled)
  | inr f ↦ elim (Option-cases (m.heap p).cb) [
    | inl e ↦ rw (f, e, reset) (v, refl, refl, λ x. refl, omega arith, or_false m.tickled)
    | inr (cb, e) ↦
        let t : Timer = record (m.heap p) {
          ms = ms;
          next = reset_next (m.heap p) now ms from_now;
        } in
        let er = erase_one m.heap p m.timers v (ap is_some e) in
        rw (f, e, er.found, reset)
          (
            move-Armed m.heap p t m.timers v er (ap is_some e),
            refl,
            ap (λ x. x.next) (update_self m.heap p t),
            λ x. ap (λ c. if p == x then record t { cb = c } else m.heap x) e,
            woken_once m.wakeups (is_first p (set_insert (update m.heap p t) p er.rest)) m.tickled,
            or_marked (is_first p (set_insert (update m.heap p t) p er.rest)) m.tickled
                ∙ or_comm _ m.tickled,
          )
  ]
]
