-- ===== src/Hook/FdLaws.antt =====
-- The table of file descriptors of src/hook/FdManager.cc: it stays within bounds, and a descriptor's
-- context is the one that was made for it.
use phase.Base.{
  ℕ, suc, zero, ◌-◌, ◌*◌, ◌/◌, ◌≤◌, ◌<◌, ◌≡◌, refl, ap, ◌∙◌, Bool, true, false, not, ◌&&◌, Option,
  none, some, List, [], ◌∷◌, ◌++◌, length, set, replicate, ◌==◌, if◌then◌else◌, arith,
  length-append, length-replicate, length-set,
}
use phase.Hook.FdManager.{
  Os, FdCtx, FdManager, slot, answer, absent, get_look, get_create, get, del, grown, then_create,
  new_ctx, is_some,
}

abbrev none_ctx : Option FdCtx
none_ctx = none

pub slot-replicate : (n j : ℕ) → slot (replicate n none) j ≡ none
slot-replicate zero j = refl
slot-replicate (suc n) zero = refl
slot-replicate (suc n) (suc j) = slot-replicate n j

slot-resized : (xs : List (Option FdCtx)) (n j : ℕ) → slot (xs ++ replicate n none) j ≡ slot xs j
slot-resized [] n j = slot-replicate n j
slot-resized (x ∷ xs) n zero = refl
slot-resized (x ∷ xs) n (suc j) = slot-resized xs n j

pub slot-set :
    (xs : List (Option FdCtx)) (i j : ℕ) (v : Option FdCtx)
    → i < length xs
    → slot (set xs i v) j ≡ (if j == i then v else slot xs j)
slot-set [] i j v h = absurd (omega arith)
slot-set (x ∷ xs) zero zero v h = refl
slot-set (x ∷ xs) zero (suc j) v h = ground arith
slot-set (x ∷ xs) (suc i) zero v h = ground arith
slot-set (x ∷ xs) (suc i) (suc j) v h = ground (arith, slot-set xs i j v (omega arith))

pub slot_beyond : (xs : List (Option FdCtx)) (j : ℕ) → length xs ≤ j → slot xs j ≡ none
slot_beyond [] j h = refl
slot_beyond (x ∷ xs) zero h = absurd (omega arith)
slot_beyond (x ∷ xs) (suc j) h = slot_beyond xs j (omega arith)

-- The table never shrinks below what the constructor makes it.
abbrev pub IsValid : FdManager → Type 0
IsValid m = 64 ≤ length m.datas

grown-length :
    (m : FdManager) (fd : ℕ) → IsValid m → (fd < length (grown m fd)) × (64 ≤ length (grown m fd))
grown-length m fd v = ground (
  arith,
  v,
  length-append m.datas (replicate (fd * 3 / 2 - length m.datas) none),
  length-replicate (fd * 3 / 2 - length m.datas) none_ctx,
)

slot-grown : (m : FdManager) (fd j : ℕ) → slot (grown m fd) j ≡ slot m.datas j
slot-grown m fd j = ground (arith, slot-resized m.datas (fd * 3 / 2 - length m.datas) j)

put_lem :
    (m : FdManager) (fd other : ℕ) (x : Option FdCtx)
    → IsValid m
    → (slot (set (grown m fd) fd x) other ≡ (if other == fd then x else slot m.datas other))
      × (64 ≤ length (set (grown m fd) fd x))
put_lem m fd other x v = (
  slot-set (grown m fd) fd other x (grown-length m fd v).0
      ∙ ap (λ z. if other == fd then x else z) (slot-grown m fd other),
  omega (arith, length-set (grown m fd) fd x, grown-length m fd v),
)

pub same_slot : (fd : ℕ) (x y : Option FdCtx) → (if fd == fd then x else y) ≡ x
same_slot fd x y = ground arith

-- What `get` leaves, in the words of the table: a context is made when it is wanted and there is none.
abbrev wanted : FdManager → ℕ → Bool → Bool
wanted m fd auto_create = auto_create && not (is_some (slot m.datas fd))

is_some-none : (o : Option FdCtx) → is_some o ≡ false → o ≡ none
is_some-none none h = refl
is_some-none (some c) h = cc

module _ {S : Type 0} (os : Os S) where
  unfoldable pub made_for : S → FdManager → ℕ → FdManager
  made_for s m fd = record { datas = set (grown m fd) fd (some (new_ctx os s fd).0) }

  get_create_lem :
      (s : S) (m : FdManager) (fd : ℕ)
      → IsValid m
      → get_create os s m fd ≡ some (some (new_ctx os s fd).0, (new_ctx os s fd).1, made_for s m fd)
  unfolding get_create made_for
  get_create_lem s m fd v = ground (arith, grown-length m fd v)

  pub look_lem :
      (m : FdManager) (fd : ℕ) (auto_create : Bool)
      → get_look m fd auto_create
        ≡ (if wanted m fd auto_create then absent else answer (slot m.datas fd))
  unfolding get_look
  look_lem m fd auto_create = ground (arith, slot_beyond m.datas fd)

  pub get_made :
      (s : S) (m : FdManager) (fd : ℕ)
      → IsValid m
      → slot m.datas fd ≡ none
      → get os s m (some fd) true
        ≡ some (some (new_ctx os s fd).0, (new_ctx os s fd).1, made_for s m fd)
  unfolding get
  get_made s m fd v e =
      ap (then_create os s m fd) (
        look_lem m fd true
        ∙ ap (λ o. if not (is_some o) then absent else answer (slot m.datas fd)) e)
      ∙ get_create_lem s m fd v

  pub made_for_lem :
      (s : S) (m : FdManager) (fd other : ℕ)
      → IsValid m
      → IsValid (made_for s m fd)
        × (slot (made_for s m fd).datas other
            ≡ (if other == fd then some (new_ctx os s fd).0 else slot m.datas other))
  unfolding made_for
  made_for_lem s m fd other v =
      let (there, bound) = put_lem m fd other (some (new_ctx os s fd).0) v in (bound, there)

pub del_lem :
    (m : FdManager) (fd other : ℕ)
    → IsValid m
    → IsValid (del m fd)
      × (slot (del m fd).datas other ≡ (if other == fd then none else slot m.datas other))
unfolding del
del_lem m fd other v = ground (
  arith,
  v,
  slot-set m.datas fd other none,
  slot_beyond m.datas other,
  length-set m.datas fd none_ctx,
)
