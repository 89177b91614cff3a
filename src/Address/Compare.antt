-- ===== src/Address/Compare.antt =====
-- The order and the equality of addresses in src/socket/address.cc. An address is the list of the
-- getAddrLen() bytes of its sockaddr.
use phase.Base.{
  ℕ, zero, suc, ◌≡◌, refl, ap, sym, ◌∙◌, arith, min, Bool, true, false, ◌&&◌, ◌||◌, List, [], ◌∷◌,
  length, ltb, ◌==◌, if◌then◌else◌, Bool-cases, inl, inr, ◌⊎◌, ◌↔◌,
}

pub data Sign : Type 0 where
  negative : Sign
  null : Sign
  positive : Sign

-- memcmp of the first bytes; both lists have as many.
unfoldable pub memcmp : ℕ → List ℕ → List ℕ → Sign
memcmp zero lhs rhs = null
memcmp (suc n) [] rhs = null
memcmp (suc n) (a ∷ lhs) [] = null
memcmp (suc n) (a ∷ lhs) (b ∷ rhs) =
    let rest = memcmp n lhs rhs in if ltb a b then negative else if ltb b a then positive else rest

-- Address::operator<.
unfoldable pub less_than : List ℕ → List ℕ → Bool
unfolding memcmp
less_than lhs rhs = elim (memcmp (min (length lhs) (length rhs)) lhs rhs) [
  | negative ↦ true
  | positive ↦ false
  | null ↦ if ltb (length lhs) (length rhs) then true else false
]

abbrev pub is_null : Sign → Bool
is_null negative = false
is_null null = true
is_null positive = false

-- Address::operator==.
unfoldable pub same_address : List ℕ → List ℕ → Bool
unfolding memcmp
same_address lhs rhs = (length lhs == length rhs) && is_null (memcmp (length lhs) lhs rhs)

-- The lexicographic order.
abbrev pub before : List ℕ → List ℕ → Bool
before lhs [] = false
before [] (b ∷ rhs) = true
before (a ∷ lhs) (b ∷ rhs) = ltb a b || ((a == b) && before lhs rhs)

less_than-before : (lhs rhs : List ℕ) → less_than lhs rhs ≡ before lhs rhs
unfolding less_than
less_than-before [] [] = refl
less_than-before [] (b ∷ rhs) =
    rw (let e : min 0 (suc (length rhs)) ≡ 0 = omega arith in e, less_than) (ground arith)
less_than-before (a ∷ lhs) [] =
    rw (let e : min (suc (length lhs)) 0 ≡ 0 = omega arith in e, less_than) (ground arith)
less_than-before (a ∷ lhs) (b ∷ rhs) =
    rw
      (
        let e : min (suc (length lhs)) (suc (length rhs)) ≡ suc (min (length lhs) (length rhs)) =
              omega arith in
            e,
        less_than,
      )
      (ground (arith, less_than-before lhs rhs))

before_self : (a : List ℕ) → before a a ≡ false
before_self [] = refl
before_self (x ∷ a) = ground (arith, before_self a)

before_trans : (a b c : List ℕ) → before a b ≡ true → before b c ≡ true → before a c ≡ true
before_trans a b [] h k = cc
before_trans [] b (z ∷ c) h k = refl
before_trans (x ∷ a) [] (z ∷ c) h k = cc
before_trans (x ∷ a) (y ∷ b) (z ∷ c) h k = ground (arith, before_trans a b c)

before_total : (a b : List ℕ) → (before a b ≡ true) ⊎ (before b a ≡ true) ⊎ (a ≡ b)
before_total [] [] = inr (inr refl)
before_total [] (y ∷ b) = inl refl
before_total (x ∷ a) [] = inr (inl refl)
before_total (x ∷ a) (y ∷ b) = elim (Bool-cases (ltb x y)) [
  | inl e ↦ inl (ground (arith, e))
  | inr e ↦ elim (Bool-cases (ltb y x)) [
    | inl f ↦ inr (inl (ground (arith, f)))
    | inr f ↦
        let q : x ≡ y = ground (arith, e, f) in
        elim (before_total a b) [
          | inl g ↦ inl (ground (arith, q, g))
          | inr (inl g) ↦ inr (inl (ground (arith, q, g)))
          | inr (inr g) ↦ inr (inr (ap (λ z. z ∷ a) q ∙ ap (λ z. y ∷ z) g))
        ]
  ]
]

same_address-≡ : (a b : List ℕ) → same_address a b ≡ true → a ≡ b
unfolding same_address
same_address-≡ [] [] h = refl
same_address-≡ [] (y ∷ b) h = ground (arith, h)
same_address-≡ (x ∷ a) [] h = ground (arith, h)
same_address-≡ (x ∷ a) (y ∷ b) h = ground (arith, same_address-≡ a b)

same_address_self : (a : List ℕ) → same_address a a ≡ true
unfolding same_address
same_address_self [] = refl
same_address_self (x ∷ a) = ground (arith, same_address_self a)

-- operator< is the lexicographic order of the bytes. It is irreflexive and transitive, and of any two
-- addresses one is less than the other or they are the same bytes, which is when operator== says so.
pub less_than_order :
    (a b : List ℕ)
    → (less_than a b ≡ before a b)
      × (less_than a a ≡ false)
      × ((c : List ℕ) → less_than a b ≡ true → less_than b c ≡ true → less_than a c ≡ true)
      × ((less_than a b ≡ true) ⊎ (less_than b a ≡ true) ⊎ (same_address a b ≡ true))
      × ((same_address a b ≡ true) ↔ (a ≡ b))
less_than_order a b = (
  less_than-before a b,
  less_than-before a a ∙ before_self a,
  λ c h k.
      less_than-before a c
      ∙ before_trans a b c (sym (less_than-before a b) ∙ h) (sym (less_than-before b c) ∙ k),
  elim (before_total a b) [
    | inl h ↦ inl (less_than-before a b ∙ h)
    | inr (inl h) ↦ inr (inl (less_than-before b a ∙ h))
    | inr (inr e) ↦ inr (inr (sym (ap (same_address a) e) ∙ same_address_self a))
  ],
  (same_address-≡ a b, λ e. sym (ap (same_address a) e) ∙ same_address_self a),
)
