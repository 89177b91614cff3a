-- ===== src/Log/Registered.antt =====
-- What LoggerManager of src/log/LoggerManager.cc keeps: each logger under its name, handing over to the
-- root.
use phase.Base.{
  ℕ, ◌≡◌, refl, ap, sym, subst, ◌∙◌, true, false, ◌&&◌, none, some, List, [], ◌∷◌, ◌++◌, ◌==◌,
  arith, All, Bool-cases, Option-cases, inl, inr, ◌⊎◌, ==_iff,
}
use phase.Log.Loggers.{Logger, put, LoggerManager, get_logger, new_logger, find_logger, same_text}
use phase.Log.Calls.{Call, get, stored}

same_text-≡ : (a b : List ℕ) → same_text a b ≡ true → a ≡ b
same_text-≡ [] [] h = refl
same_text-≡ [] (d ∷ b) h = cc
same_text-≡ (c ∷ a) [] h = cc
same_text-≡ (c ∷ a) (d ∷ b) h = elim (Bool-cases (c == d)) [
  | inl e ↦
      let heads : c ≡ d = (==_iff c d).0 e in
      let tails : same_text a b ≡ true = sym (ap (λ z. z && same_text a b) e) ∙ h in
      ap (λ z. z ∷ a) heads ∙ ap (λ z. d ∷ z) (same_text-≡ a b tails)
  | inr e ↦ let bad : false ≡ true = sym (ap (λ z. z && same_text a b) e) ∙ h in cc
]

-- New addresses are none of the used ones.
abbrev pub New : List ℕ → ℕ → Type 0
New used p = All (λ u. (u == p) ≡ false) used

abbrev pub used_after : List ℕ → Call → List ℕ
used_after used (get name p) = p ∷ used
used_after used c = used

abbrev pub Fresh : List ℕ → Call → Type 0
Fresh used (get name p) = New used p
Fresh used c = Unit

abbrev pub AllFresh : List ℕ → List Call → Type 0
AllFresh used [] = Unit
AllFresh used (c ∷ calls) = Fresh used c × AllFresh (used_after used c) calls

abbrev pub Used : List ℕ → ℕ → Type 0
Used used l = (p : ℕ) → New used p → (l == p) ≡ false

-- A registered logger has the name it is found under, and is the root or hands over to it.
abbrev pub Registered : LoggerManager → List ℕ → ℕ → Type 0
Registered m name l =
    ((m.loggers l).name ≡ name) × (((m.loggers l).root ≡ none) ⊎ ((m.loggers l).root ≡ some m.root))

abbrev pub Named : List ℕ → LoggerManager → Type 0
Named used m =
    ((m.loggers m.root).root ≡ none)
    × Used used m.root
    × ((name : List ℕ) (l : ℕ)
        → find_logger name m.names ≡ some l
        → Registered m name l × Used used l)

-- A logger is stored with its name and its root unchanged.
pub stored-Named :
    (used : List ℕ) (m : LoggerManager) (l : ℕ) (logger : Logger)
    → logger.name ≡ (m.loggers l).name
    → logger.root ≡ (m.loggers l).root
    → Named used m
    → Named used (stored m l logger)
stored-Named used m l logger n r (root, new, all) =
    let (names, roots) = kept in
    (
      roots m.root ∙ root,
      new,
      λ name k found.
          let ((a, b), c) = all name k found in
          ((names k ∙ a, elim b [ inl e ↦ inl (roots k ∙ e) | inr e ↦ inr (roots k ∙ e) ]), c),
    )
  where
    kept :
        ((k : ℕ) → (put m.loggers l logger k).name ≡ (m.loggers k).name)
        × ((k : ℕ) → (put m.loggers l logger k).root ≡ (m.loggers k).root)
    kept = (
      λ k. elim (Bool-cases (l == k)) [
        | inl e ↦ rw e (n ∙ ap (λ z. (m.loggers z).name) ((==_iff l k).0 e))
        | inr e ↦ rw e refl
      ],
      λ k. elim (Bool-cases (l == k)) [
        | inl e ↦ rw e (r ∙ ap (λ z. (m.loggers z).root) ((==_iff l k).0 e))
        | inr e ↦ rw e refl
      ],
    )

pub find_added :
    (names : List (List ℕ × ℕ)) (key name : List ℕ) (p l : ℕ)
    → find_logger name (names ++ (key, p) ∷ []) ≡ some l
    → (find_logger name names ≡ some l) ⊎ ((key ≡ name) × (p ≡ l))
find_added [] key name p l h = elim (Bool-cases (same_text key name)) [
  | inl e ↦
      let both : some p ≡ some l = sym (rw e refl) ∙ h in
      let one : p ≡ l = cc in inr (same_text-≡ key name e, one)
  | inr e ↦ let bad : none ≡ some l = sym (rw e refl) ∙ h in cc
]
find_added ((k, q) ∷ names) key name p l h = elim (Bool-cases (same_text k name)) [
  | inl e ↦ let both : some q ≡ some l = sym (rw e refl) ∙ h in inl (rw e both)
  | inr e ↦
      let later : find_logger name (names ++ (key, p) ∷ []) ≡ some l = sym (rw e refl) ∙ h in
      elim (find_added names key name p l later) [ inl f ↦ inl (rw e f) | inr f ↦ inr f ]
]

still_there : (used : List ℕ) (p l : ℕ) → Used used l → Used (p ∷ used) l
still_there used p l u q (n, new) = u q new

other : (a b : ℕ) → (a == b) ≡ false → (b == a) ≡ false
other a b h = ground (arith, h)

pub get_logger-Named :
    (used : List ℕ) (m : LoggerManager) (name : List ℕ) (p : ℕ)
    → New used p
    → Named used m
    → Named (p ∷ used) (get_logger m name p).0
unfolding get_logger new_logger
get_logger-Named used m name p fresh (root, new, all) =
    elim (Option-cases (find_logger name m.names)) [
      | inl e ↦
          rw (e, get_logger)
            (
              rw (other m.root p (new p fresh)) root,
              still_there used p m.root new,
              λ k l found. elim (find_added m.names name k p l found) [
                | inl f ↦
                    let (r, u) = all k l f in (rw (other l p (u p fresh)) r, still_there used p l u)
                | inr (n, q) ↦ registered k l n q
              ],
            )
      | inr (l0, e) ↦
          rw (e, get_logger)
            (
              root,
              still_there used p m.root new,
              λ k l found. let (r, u) = all k l found in (r, still_there used p l u),
            )
    ]
  where
    made : LoggerManager
    made = record m {
      loggers = put m.loggers p (record (new_logger name) { root = some m.root });
      names = m.names ++ (name, p) ∷ [];
    }

    self : (p == p) ≡ true
    self = ground arith

    registered : (k : List ℕ) (l : ℕ) → name ≡ k → p ≡ l → Registered made k l × Used (p ∷ used) l
    registered k l n q =
        subst (λ z. Registered made k z × Used (p ∷ used) z) q
          ((rw self n, inr (rw self refl)), (λ y both. both.0))
