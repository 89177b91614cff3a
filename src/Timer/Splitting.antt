-- ===== src/Timer/Splitting.antt =====
-- The part of the set that listExpiredCb takes out.
use phase.Base.{
  All-concat, ℕ, suc, ◌≤◌, ◌<◌, ◌≡◌, refl, ap, sym, subst, ◌∙◌, inl, inr, Bool, true, false, ◌&&◌,
  ◌||◌, none, List, [], ◌∷◌, ◌++◌, append_assoc, append-nil, arith, leb, ◌==◌, if◌then◌else◌, All,
  Bool-cases,
}
use phase.Timer.State.{
  Timer, Heap, TimerManager, update, before, lower_bound, due_now, split_expired,
}
use phase.Timer.Order.{IsSorted, member, probe_after, probe_not_after, due_after}
use phase.Timer.Set.{All-member, IsSorted-append, member-append}
use phase.Timer.Invariant.{Inv}

-- A list is cut in two at the first element that fails a test.
before_probe :
    (h : Heap) (p : ℕ) (t : Timer) (l : List ℕ)
    → member p l ≡ false
    → IsSorted h l
    → let parts = lower_bound (update h p t) p l in
      (parts.0 ++ parts.1 ≡ l)
      × All (λ b. (h b).next ≤ t.next) parts.0
      × All (λ b. t.next ≤ (h b).next) parts.1
unfolding lower_bound
before_probe h p t [] out s = (refl, tt, tt)
before_probe h p t (b ∷ l) out (all, s) =
    let (same, front, rest) = before_probe h p t l (ground arith) s in
    elim (Bool-cases (before (update h p t) b p)) [
      | inl e ↦ rw e (ap (λ z. b ∷ z) same, (probe_after h p t b (ground arith) e, front), rest)
      | inr e ↦
          let le = probe_not_after h p t b (ground arith) e in
          rw e (refl, tt, (le, due_after h b t.next l le all))
    ]

after_now :
    (h : Heap) (now : ℕ) (l : List ℕ)
    → IsSorted h l
    → All (λ b. now ≤ (h b).next) l
    → let parts = due_now h now l in
      (parts.0 ++ parts.1 ≡ l)
      × All (λ b. (h b).next ≤ now) parts.0
      × All (λ b. now < (h b).next) parts.1
unfolding due_now
after_now h now [] s late = (refl, tt, tt)
after_now h now (b ∷ l) (all, s) (le, late) =
    let (same, front, rest) = after_now h now l s late in
    elim (Bool-cases ((h b).next == now)) [
      | inl e ↦ rw e (ap (λ z. b ∷ z) same, (ground arith, front), rest)
      | inr e ↦
          let lt : now < (h b).next = ground arith in
          rw e (refl, tt, (lt, due_after h b (suc now) l lt all))
    ]

cut_members :
    (h : Heap) (now : ℕ) (k r l : List ℕ) (x : ℕ)
    → k ++ r ≡ l
    → All (λ b. (h b).next ≤ now) k
    → All (λ b. now < (h b).next) r
    → member x k ≡ (member x l && (false || leb (h x).next now))
cut_members h now k r l x cut early late =
    let joined : member x l ≡ (if member x k then true else member x r) =
      ap (member x) (sym cut) ∙ member-append x k r in
    elim (Bool-cases (member x k)) [
      | inl e ↦
          let le = All-member (λ b. (h b).next ≤ now) k x early e in ground (arith, le, joined)
      | inr e ↦ elim (Bool-cases (member x r)) [
        | inl f ↦
            let lt = All-member (λ b. now < (h b).next) r x late f in ground (arith, lt, joined)
        | inr f ↦ ground (arith, joined)
      ]
    ]

-- What split_expired takes: without a rollover, the timers due by now; with one, all.
pub split_expired_lem :
    (m : TimerManager) (now p : ℕ) (rollover : Bool)
    → Inv m
    → member p m.timers ≡ false
    → let parts = split_expired m now p rollover in
      (parts.0 ++ parts.1 ≡ m.timers)
      × ((x : ℕ) → member x parts.0 ≡ (member x m.timers && (rollover || leb (m.heap x).next now)))
unfolding split_expired
split_expired_lem m now p true v out = (
  append-nil m.timers,
  λ x. elim (Bool-cases (member x m.timers)) [ inl e ↦ rw e refl | inr e ↦ rw e refl ],
)
split_expired_lem m now p false v out =
    let probe : Timer = record { recurring = false; ms = 0; next = now; cb = none } in
    let cut = lower_bound (update m.heap p probe) p m.timers in
    let (joined, early, late) = before_probe m.heap p probe m.timers out v.sorted in
    let sorted =
      IsSorted-append m.heap cut.0 cut.1 (subst (IsSorted m.heap) (sym joined) v.sorted) in
    let (joined', due, later) = after_now m.heap now cut.1 sorted.1 late in
    let cut' = due_now m.heap now cut.1 in
    let whole : (cut.0 ++ cut'.0) ++ cut'.1 ≡ m.timers =
      append_assoc cut.0 cut'.0 cut'.1 ∙ ap (λ z. cut.0 ++ z) joined' ∙ joined in
    (
      whole,
      λ x.
          cut_members m.heap now (cut.0 ++ cut'.0) cut'.1 m.timers x whole
            (All-concat (λ b. (m.heap b).next ≤ now) cut.0 cut'.0 early due) later,
    )
