-- ===== src/Timer/Firing.antt =====
-- The loop of listExpiredCb over the expired timers.
use phase.Base.{
  ℕ, ◌≡◌, ◌≢◌, refl, ap, sym, subst, ◌∙◌, inl, inr, Bool, true, false, ◌&&◌, none, List, [], ◌∷◌,
  map, arith, ◌==◌, if◌then◌else◌, Bool-cases, add64,
}
use phase.Timer.State.{Timer, Heap, update, set_insert, fire}
use phase.Timer.Order.{IsSorted, IsSorted-update, member}
use phase.Timer.Set.{clash, not_member_after, member-set_insert, set_insert-IsSorted}
use phase.Timer.Invariant.{is_some, has_cb, Armed, update_self, other_cb}

-- Between two rounds: `pending` are the timers that are still to fire.
pub record Firing (h : Heap) (pending timers : List ℕ) : Type 0 where
  pub pending_sorted : IsSorted h pending
  pub sorted : IsSorted h timers
  pub apart : (x : ℕ) → member x pending ≡ true → member x timers ≡ false
  pub armed : (x : ℕ) → has_cb h x ≡ (if member x pending then true else member x timers)

-- What a timer is after it has fired.
abbrev pub after_fire : ℕ → Timer → Timer
after_fire now t =
    if t.recurring then record t { next = add64 now t.ms } else record t { cb = none }

-- The set after the round of timer `a`.
abbrev pub fire_set : ℕ → Heap → ℕ → List ℕ → List ℕ
fire_set now h a timers =
    if (h a).recurring then set_insert (update h a (after_fire now (h a))) a timers else timers

fire_step :
    (now : ℕ) (a : ℕ) (others : List ℕ) (h : Heap) (timers : List ℕ)
    → fire now (a ∷ others) h timers ≡ (
        let fired = fire now others (update h a (after_fire now (h a))) (fire_set now h a timers) in
        ((h a).cb ∷ fired.0, fired.1, fired.2))
unfolding fire
fire_step now a others h timers = elim (Bool-cases (h a).recurring) [
  | inl e ↦ rw e refl
  | inr e ↦ rw e refl
]

member-insert_if :
    (again : Bool) (g : Heap) (a : ℕ) (timers : List ℕ) (x : ℕ)
    → member x (if again then set_insert g a timers else timers)
      ≡ (if again && (a == x) then true else member x timers)
member-insert_if true g a timers x = member-set_insert g a timers x
member-insert_if false g a timers x = refl

insert_if-IsSorted :
    (again : Bool) (g : Heap) (a : ℕ) (timers : List ℕ)
    → IsSorted g timers
    → IsSorted g (if again then set_insert g a timers else timers)
insert_if-IsSorted true g a timers s = set_insert-IsSorted g a timers s
insert_if-IsSorted false g a timers s = s

-- A member of one list is not the element that the list lacks.
apart_of : (a x : ℕ) (l : List ℕ) → member a l ≡ false → member x l ≡ true → a ≢ x
apart_of a x l out m e = absurd (clash (member x l) m (subst (λ y. member y l ≡ false) e out))

armed_again :
    (now : ℕ) (t : Timer) → is_some t.cb ≡ true → is_some (after_fire now t).cb ≡ t.recurring
armed_again now t e = elim (Bool-cases t.recurring) [ inl f ↦ rw f e | inr f ↦ rw f refl ]

Firing-step :
    (now : ℕ) (a : ℕ) (others : List ℕ) (h : Heap) (timers : List ℕ)
    → Firing h (a ∷ others) timers
    → Firing (update h a (after_fire now (h a))) others (fire_set now h a timers)
Firing-step now a others h timers f =
    let t = after_fire now (h a) in
    let g : Heap = update h a t in
    let again = (h a).recurring in
    let alone = not_member_after h a others (f.pending_sorted).0 in
    let out : member a timers ≡ false = f.apart a (ground arith) in
    let members = member-insert_if again g a timers in
    record {
      pending_sorted = IsSorted-update h a t others alone (f.pending_sorted).1;
      sorted = insert_if-IsSorted again g a timers (IsSorted-update h a t timers out f.sorted);
      apart = λ x m.
          let ne = apart_of a x others alone m in
          let old : member x timers ≡ false = f.apart x (ground (arith, m)) in
          members x ∙ insert_other again a x (member x timers) ne ∙ old;
      armed = λ x. elim (Bool-cases (a == x)) [
        | inl e ↦
            armed_self now a x others timers h (ground arith) alone out (f.armed a)
            ∙ ap (λ b. if member x others then true else b) (sym (members x))
        | inr e ↦
            armed_other now a x others timers h (ground arith) (f.armed x)
            ∙ ap (λ b. if member x others then true else b) (sym (members x))
      ];
    }
  where
    insert_other :
        (again : Bool) (a x : ℕ) (b : Bool) → a ≢ x → (if again && (a == x) then true else b) ≡ b
    insert_other true a x b ne = ground arith
    insert_other false a x b ne = refl

    if_self : (b : Bool) (a : ℕ) → b ≡ (if b && (a == a) then true else false)
    if_self true a = ground arith
    if_self false a = refl

    armed_self :
        (now a x : ℕ) (others timers : List ℕ) (h : Heap)
        → a ≡ x
        → member a others ≡ false
        → member a timers ≡ false
        → has_cb h a ≡ (if member a (a ∷ others) then true else member a timers)
        → has_cb (update h a (after_fire now (h a))) x ≡ (
            if member x others
            then true
            else if (h a).recurring && (a == x)
            then true
            else member x timers)
    armed_self now a x others timers h e alone out armed =
        subst
          (λ y. has_cb (update h a (after_fire now (h a))) y ≡ (
            if member y others
            then true
            else if (h a).recurring && (a == y)
            then true
            else member y timers))
          e
          (ap (λ t. is_some t.cb) (update_self h a (after_fire now (h a)))
            ∙ armed_again now (h a) (armed ∙ ground arith)
            ∙ rw (alone, out) (if_self (h a).recurring a))

    armed_other :
        (now a x : ℕ) (others timers : List ℕ) (h : Heap)
        → a ≢ x
        → has_cb h x ≡ (if member x (a ∷ others) then true else member x timers)
        → has_cb (update h a (after_fire now (h a))) x ≡ (
            if member x others
            then true
            else if (h a).recurring && (a == x)
            then true
            else member x timers)
    armed_other now a x others timers h ne armed =
        let skip_head : (if member x (a ∷ others) then true else member x timers)
            ≡ (if member x others then true else member x timers) =
          ground arith in
        other_cb h a (after_fire now (h a)) x ne
        ∙ armed
        ∙ skip_head
        ∙ sym (
            ap (λ b. if member x others then true else b)
              (insert_other (h a).recurring a x (member x timers) ne))

-- The loop: what is collected, what each timer becomes, and the invariant at the end.
pub record Fired (now : ℕ) (pending : List ℕ) (h : Heap) (timers : List ℕ) : Type 0 where
  pub callbacks : (fire now pending h timers).0 ≡ map (λ a. (h a).cb) pending
  pub each :
      (x : ℕ)
      → (fire now pending h timers).1 x ≡ (if member x pending then after_fire now (h x) else h x)
  pub valid : Armed (fire now pending h timers).1 (fire now pending h timers).2

update_other : (h : Heap) (a : ℕ) (t : Timer) (b : ℕ) → a ≢ b → update h a t b ≡ h b
update_other h a t b ne = ground arith

cbs_untouched :
    (h : Heap) (a : ℕ) (t : Timer) (l : List ℕ)
    → member a l ≡ false
    → map (λ x. (update h a t x).cb) l ≡ map (λ x. (h x).cb) l
cbs_untouched h a t [] out = refl
cbs_untouched h a t (b ∷ l) out =
    ap (λ y. y.cb ∷ map (λ x. (update h a t x).cb) l) (update_other h a t b (ground arith))
    ∙ ap (λ z. (h b).cb ∷ z) (cbs_untouched h a t l (ground arith))

each_now :
    (now : ℕ) (h : Heap) (a : ℕ) (others : List ℕ) (x : ℕ)
    → member a others ≡ false
    → let g : Heap = update h a (after_fire now (h a)) in
      (if member x others then after_fire now (g x) else g x)
      ≡ (if member x (a ∷ others) then after_fire now (h x) else h x)
each_now now h a others x alone = elim (Bool-cases (a == x)) [
  | inl e ↦
      let same : a ≡ x = ground arith in
      rw (subst (λ y. member y others ≡ false) same alone)
        (rw e (ap (λ y. after_fire now (h y)) same))
  | inr e ↦ rw e refl
]

pub fire-Fired :
    (now : ℕ) (pending : List ℕ) (h : Heap) (timers : List ℕ)
    → Firing h pending timers
    → Fired now pending h timers
unfolding fire
fire-Fired now [] h timers f = record {
  callbacks = refl;
  each = λ x. refl;
  valid = record { sorted = f.sorted; armed = λ x. sym (f.armed x) };
}
fire-Fired now (a ∷ others) h timers f =
    let t = after_fire now (h a) in
    let g : Heap = update h a t in
    let rest =
      fire-Fired now others g (fire_set now h a timers) (Firing-step now a others h timers f) in
    let alone = not_member_after h a others (f.pending_sorted).0 in
    let step = fire_step now a others h timers in
    record {
      callbacks =
          ap (λ r. r.0) step
          ∙ ap (λ l. (h a).cb ∷ l) (rest.callbacks ∙ cbs_untouched h a t others alone);
      each = λ x. ap (λ r. r.1 x) step ∙ rest.each x ∙ each_now now h a others x alone;
      valid = subst (λ r. Armed r.1 r.2) (sym step) rest.valid;
    }
