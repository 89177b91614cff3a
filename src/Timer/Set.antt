-- ===== src/Timer/Set.antt =====
-- Insertion in the set of timers and removal from it.
use phase.Base.{
  ℕ, ◌≡◌, ◌≢◌, refl, sym, subst, ◌∙◌, inl, inr, Bool, true, false, none, some, List, [], ◌∷◌, ◌++◌,
  arith, ◌==◌, if◌then◌else◌, All, Bool-cases,
}
use phase.Timer.State.{Heap, comparator, before, set_insert, set_erase}
use phase.Timer.Order.{before_total, before_trans, IsSorted, member}

pub clash : (b : Bool) → b ≡ true → b ≢ false
clash b e f = ground arith

pub All-member : (P : ℕ → Type 0) (l : List ℕ) (x : ℕ) → All P l → member x l ≡ true → P x
All-member P [] x all e = absurd (ground arith)
All-member P (a ∷ l) x (pa, all) e = elim (Bool-cases (a == x)) [
  | inl same ↦ subst P (ground arith) pa
  | inr other ↦ All-member P l x all (ground arith)
]

All-weaken :
    (h : Heap) (a b : ℕ) (l : List ℕ)
    → before h a b ≡ true
    → All (λ c. before h b c ≡ true) l
    → All (λ c. before h a c ≡ true) l
All-weaken h a b [] e all = tt
All-weaken h a b (c ∷ l) e (p, all) = (before_trans h a b c e p, All-weaken h a b l e all)

pub before_irrefl : (h : Heap) (a b : ℕ) → a ≡ b → before h a b ≡ false
unfolding comparator
before_irrefl h a b e = ground arith

-- Nothing is among the elements that come after it.
pub not_member_after :
    (h : Heap) (a : ℕ) (l : List ℕ) → All (λ b. before h a b ≡ true) l → member a l ≡ false
not_member_after h a [] all = refl
not_member_after h a (b ∷ l) (e, all) =
    let rec = not_member_after h a l all in
    elim (Bool-cases (b == a)) [
      | inl same ↦ absurd (clash (before h a b) e (before_irrefl h a b (ground arith)))
      | inr other ↦ ground (arith, rec)
    ]

pub member-set_insert :
    (h : Heap) (a : ℕ) (l : List ℕ) (x : ℕ)
    → member x (set_insert h a l) ≡ (if a == x then true else member x l)
unfolding set_insert
member-set_insert h a [] x = refl
member-set_insert h a (b ∷ l) x =
    let rec = member-set_insert h a l x in
    let same = before_total h a b in ground (arith, rec, same)

pub All-set_insert :
    (P : ℕ → Type 0) (h : Heap) (a : ℕ) (l : List ℕ) → P a → All P l → All P (set_insert h a l)
unfolding set_insert
All-set_insert P h a [] pa all = (pa, tt)
All-set_insert P h a (b ∷ l) pa (pb, all) = elim (Bool-cases (before h a b)) [
  | inl e ↦ rw e (pa, (pb, all))
  | inr e ↦ elim (Bool-cases (before h b a)) [
    | inl f ↦ rw e (rw f (pb, All-set_insert P h a l pa all))
    | inr f ↦ rw e (rw f (pb, all))
  ]
]

pub set_insert-IsSorted :
    (h : Heap) (a : ℕ) (l : List ℕ) → IsSorted h l → IsSorted h (set_insert h a l)
unfolding set_insert
set_insert-IsSorted h a [] s = (tt, tt)
set_insert-IsSorted h a (b ∷ l) (all, s) = elim (Bool-cases (before h a b)) [
  | inl e ↦ rw e ((e, All-weaken h a b l e all), (all, s))
  | inr e ↦ elim (Bool-cases (before h b a)) [
    | inl f ↦
        rw e (
          rw f (All-set_insert (λ c. before h b c ≡ true) h a l f all, set_insert-IsSorted h a l s))
    | inr f ↦ rw e (rw f (all, s))
  ]
]

-- What the removal of an element gives.
pub record Erased (h : Heap) (a : ℕ) (l : List ℕ) : Type 0 where
  pub rest : List ℕ
  pub found : set_erase h a l ≡ some rest
  pub sorted : IsSorted h rest
  pub gone : member a rest ≡ false
  pub kept : (x : ℕ) → a ≢ x → member x rest ≡ member x l

pub every_member : (P : ℕ → Type 0) (l : List ℕ) → ((x : ℕ) → member x l ≡ true → P x) → All P l
every_member P [] f = tt
every_member P (a ∷ l) f = (f a (ground arith), every_member P l (λ x m. f x (ground (arith, m))))

pub set_erase-Erased :
    (h : Heap) (a : ℕ) (l : List ℕ) → IsSorted h l → member a l ≡ true → Erased h a l
unfolding set_erase
set_erase-Erased h a [] s m = absurd (ground arith)
set_erase-Erased h a (b ∷ l) (all, s) m = elim (Bool-cases (b == a)) [
  | inl same ↦ record {
    rest = l;
    found = rw (before_irrefl h b a (ground arith), before_irrefl h a b (ground arith)) refl;
    sorted = s;
    gone = subst (λ x. member x l ≡ false) (ground arith) (not_member_after h b l all);
    kept = λ x ne. ground arith;
  }
  | inr other ↦
      let er = set_erase-Erased h a l s (ground arith) in
      let lt = All-member (λ c. before h b c ≡ true) l a all (ground arith) in
      record {
        rest = b ∷ er.rest;
        found = rw (lt, er.found) refl;
        sorted = (
          every_member (λ c. before h b c ≡ true) er.rest
              (λ x mx.
                All-member (λ c. before h b c ≡ true) l x all
                  (came a x er.rest l er.gone er.kept mx)),
          er.sorted,
        );
        gone = ground (arith, er.gone);
        kept = λ x ne. let k = er.kept x ne in ground (arith, k);
      }
]
  where
    came :
        (a x : ℕ) (rest l : List ℕ)
        → member a rest ≡ false
        → ((y : ℕ) → a ≢ y → member y rest ≡ member y l)
        → member x rest ≡ true
        → member x l ≡ true
    came a x rest l gone kept mx = elim (Bool-cases (a == x)) [
      | inl e ↦
          absurd (clash (member x rest) mx (subst (λ y. member y rest ≡ false) (ground arith) gone))
      | inr e ↦ sym (kept x (ground arith)) ∙ mx
    ]

-- Nothing is removed if the element is not there.
pub set_erase_absent : (h : Heap) (a : ℕ) (l : List ℕ) → member a l ≡ false → set_erase h a l ≡ none
unfolding set_erase
set_erase_absent h a [] m = refl
set_erase_absent h a (b ∷ l) m =
    let rec = set_erase_absent h a l (ground arith) in
    let same = before_total h a b in
    elim (Bool-cases (before h b a)) [
      | inl e ↦ rw (e, rec) refl
      | inr e ↦ elim (Bool-cases (before h a b)) [
        | inl f ↦ rw (e, f) refl
        | inr f ↦ let eq = same f e in absurd (ground (arith, m, eq))
      ]
    ]

halves : (P : ℕ → Type 0) (k l : List ℕ) → All P (k ++ l) → All P k × All P l
halves P [] l all = (tt, all)
halves P (a ∷ k) l (e, all) = let (fst, snd) = halves P k l all in ((e, fst), snd)

-- The two halves of a set are sets, with no element in common.
pub IsSorted-append :
    (h : Heap) (k l : List ℕ)
    → IsSorted h (k ++ l)
    → IsSorted h k × IsSorted h l × ((x : ℕ) → member x k ≡ true → member x l ≡ false)
IsSorted-append h [] l s = (tt, s, λ x e. absurd (ground (arith, e)))
IsSorted-append h (a ∷ k) l (all, s) =
    let (front, rest, apart) = IsSorted-append h k l s in
    let (all_k, all_l) = halves (λ b. before h a b ≡ true) k l all in
    (
      (all_k, front),
      rest,
      λ x e. elim (Bool-cases (a == x)) [
        | inl same ↦
            let eq : a ≡ x = ground arith in
            subst (λ y. member y l ≡ false) eq (not_member_after h a l all_l)
        | inr other ↦ apart x (ground arith)
      ],
    )

pub member-append :
    (x : ℕ) (k l : List ℕ) → member x (k ++ l) ≡ (if member x k then true else member x l)
member-append x [] l = refl
member-append x (a ∷ k) l = let rec = member-append x k l in ground (arith, rec)
