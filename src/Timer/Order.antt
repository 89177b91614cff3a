-- ===== src/Timer/Order.antt =====
-- The comparator is a strict total order on the addresses of timers.
use phase.Base.{
  ℕ, ◌≤◌, ◌<◌, ◌≡◌, ◌≢◌, refl, ◌∙◌, Bool, true, false, List, [], ◌∷◌, arith, ◌==◌, if◌then◌else◌,
  All,
}
use phase.Timer.State.{Timer, Heap, update, comparator, before}

pub before_asymm : (h : Heap) (a b : ℕ) → before h a b ≡ true → before h b a ≡ false
unfolding comparator
before_asymm h a b e = ground arith

pub before_total : (h : Heap) (a b : ℕ) → before h a b ≡ false → before h b a ≡ false → a ≡ b
unfolding comparator
before_total h a b p q = ground arith

pub before_trans :
    (h : Heap) (a b c : ℕ) → before h a b ≡ true → before h b c ≡ true → before h a c ≡ true
unfolding comparator
before_trans h a b c p q = ground arith

-- An earlier timer comes before, and none that comes before is later.
pub before_of_next : (h : Heap) (a b : ℕ) → (h a).next < (h b).next → before h a b ≡ true
unfolding comparator
before_of_next h a b p = ground arith

pub next_of_before : (h : Heap) (a b : ℕ) → before h a b ≡ true → (h a).next ≤ (h b).next
unfolding comparator
next_of_before h a b p = ground arith

-- The set holds each address once, in order.
abbrev pub IsSorted : Heap → List ℕ → Type 0
IsSorted h [] = Unit {0}
IsSorted h (a ∷ l) = All (λ b. before h a b ≡ true) l × IsSorted h l

abbrev pub member : ℕ → List ℕ → Bool
member x [] = false
member x (a ∷ l) = if a == x then true else member x l

-- A change of a timer that is not in the set does not move the others.
untouched_before :
    (h : Heap) (p : ℕ) (t : Timer) (a b : ℕ)
    → p ≢ a
    → p ≢ b
    → before (update h p t) a b ≡ before h a b
unfolding comparator
untouched_before h p t a b ha hb = ground arith

untouched_rest :
    (h : Heap) (p : ℕ) (t : Timer) (a : ℕ) (l : List ℕ)
    → p ≢ a
    → member p l ≡ false
    → All (λ b. before h a b ≡ true) l
    → All (λ b. before (update h p t) a b ≡ true) l
untouched_rest h p t a [] ha out all = tt
untouched_rest h p t a (b ∷ l) ha out (e, all) = (
  untouched_before h p t a b ha (ground arith) ∙ e,
  untouched_rest h p t a l ha (ground arith) all,
)

pub IsSorted-update :
    (h : Heap) (p : ℕ) (t : Timer) (l : List ℕ)
    → member p l ≡ false
    → IsSorted h l
    → IsSorted (update h p t) l
IsSorted-update h p t [] out s = tt
IsSorted-update h p t (a ∷ l) out (all, s) = (
  untouched_rest h p t a l (ground arith) (ground arith) all,
  IsSorted-update h p t l (ground arith) s,
)

-- The order depends on the times alone.
before_same :
    (h g : Heap) (a b : ℕ) → ((x : ℕ) → (g x).next ≡ (h x).next) → before g a b ≡ before h a b
unfolding comparator
before_same h g a b same = rw (same a, same b) refl

All-before_same :
    (h g : Heap) (a : ℕ) (l : List ℕ)
    → ((x : ℕ) → (g x).next ≡ (h x).next)
    → All (λ b. before h a b ≡ true) l
    → All (λ b. before g a b ≡ true) l
All-before_same h g a [] same all = tt
All-before_same h g a (b ∷ l) same (e, all) =
    (before_same h g a b same ∙ e, All-before_same h g a l same all)

pub retimed :
    (h g : Heap) (l : List ℕ) → ((x : ℕ) → (g x).next ≡ (h x).next) → IsSorted h l → IsSorted g l
retimed h g [] same s = tt
retimed h g (a ∷ l) same (all, s) = (All-before_same h g a l same all, retimed h g l same s)

-- A timer `t` at a free address, compared with a timer of the set.
pub probe_after :
    (h : Heap) (p : ℕ) (t : Timer) (b : ℕ)
    → p ≢ b
    → before (update h p t) b p ≡ true
    → (h b).next ≤ t.next
unfolding comparator
probe_after h p t b ne e = ground arith

pub probe_not_after :
    (h : Heap) (p : ℕ) (t : Timer) (b : ℕ)
    → p ≢ b
    → before (update h p t) b p ≡ false
    → t.next ≤ (h b).next
unfolding comparator
probe_not_after h p t b ne e = ground arith

pub due_after :
    (h : Heap) (a n : ℕ) (l : List ℕ)
    → n ≤ (h a).next
    → All (λ b. before h a b ≡ true) l
    → All (λ b. n ≤ (h b).next) l
due_after h a n [] le all = tt
due_after h a n (b ∷ l) le (e, all) =
    let lt = next_of_before h a b e in (omega arith, due_after h a n l le all)
