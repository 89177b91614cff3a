-- ===== src/ByteArray/Memory.antt =====
-- Runs of bytes: what memcpy does to one node, and the same on the concatenation of the nodes.
use phase.Base.{
  ℕ, zero, suc, ◌+◌, ◌-◌, ◌≤◌, max, ◌≡◌, refl, ap, ◌∙◌, sym, List, [], ◌∷◌, ◌++◌, arith, length,
  take, drop, length-drop, take-append_left, take-append_right, drop-append_left, take_all,
}

-- memcpy of `buf` to offset `p` of a block; what would lie behind the block is not written.
abbrev pub overwrite : ℕ → List ℕ → List ℕ → List ℕ
overwrite p buf [] = []
overwrite zero [] (y ∷ l) = y ∷ l
overwrite zero (x ∷ buf) (y ∷ l) = x ∷ overwrite zero buf l
overwrite (suc p) buf (y ∷ l) = y ∷ overwrite p buf l

-- The same on a sequence that grows at its end.
abbrev pub splice : ℕ → List ℕ → List ℕ → List ℕ
splice zero [] l = l
splice zero (x ∷ buf) [] = x ∷ buf
splice zero (x ∷ buf) (y ∷ l) = x ∷ splice zero buf l
splice (suc p) buf [] = buf
splice (suc p) buf (y ∷ l) = y ∷ splice p buf l

pub length-overwrite : (p : ℕ) (buf l : List ℕ) → length (overwrite p buf l) ≡ length l
length-overwrite zero buf [] = refl
length-overwrite (suc p) buf [] = refl
length-overwrite zero [] (y ∷ l) = refl
length-overwrite zero (x ∷ buf) (y ∷ l) = ap suc (length-overwrite zero buf l)
length-overwrite (suc p) buf (y ∷ l) = ap suc (length-overwrite p buf l)

overwrite-nil : (l : List ℕ) → overwrite zero [] l ≡ l
overwrite-nil [] = refl
overwrite-nil (y ∷ l) = refl

-- A write that runs over the end of the first block goes on in the second.
pub overwrite-append :
    (p c : ℕ) (buf xs ys : List ℕ)
    → length xs ≡ p + c
    → overwrite p buf (xs ++ ys) ≡ overwrite p buf xs ++ overwrite 0 (drop c buf) ys
overwrite-append zero zero buf [] ys h = refl
overwrite-append zero (suc c) buf [] ys h = absurd (omega arith)
overwrite-append (suc p) c buf [] ys h = absurd (omega arith)
overwrite-append zero zero [] (x ∷ xs) ys h = absurd (omega arith)
overwrite-append zero (suc c) [] (x ∷ xs) ys h = ap (λ t. x ∷ xs ++ t) (sym (overwrite-nil ys))
overwrite-append zero zero (b ∷ buf) (x ∷ xs) ys h = absurd (omega arith)
overwrite-append zero (suc c) (b ∷ buf) (x ∷ xs) ys h =
    ap (◌∷◌ b) (overwrite-append zero c buf xs ys (omega arith))
overwrite-append (suc p) c buf (x ∷ xs) ys h =
    ap (◌∷◌ x) (overwrite-append p c buf xs ys (omega arith))

-- Only what fits the block matters.
pub overwrite-take :
    (p c : ℕ) (buf l : List ℕ) → length l ≡ p + c → overwrite p (take c buf) l ≡ overwrite p buf l
overwrite-take zero c buf [] h = refl
overwrite-take (suc p) c buf [] h = refl
overwrite-take zero zero buf (y ∷ l) h = absurd (omega arith)
overwrite-take zero (suc c) [] (y ∷ l) h = refl
overwrite-take zero (suc c) (x ∷ buf) (y ∷ l) h =
    ap (◌∷◌ x) (overwrite-take zero c buf l (omega arith))
overwrite-take (suc p) c buf (y ∷ l) h = ap (◌∷◌ y) (overwrite-take p c buf l (omega arith))

-- Behind the first block a write leaves it alone.
pub overwrite-append_right :
    (xs : List ℕ) (p : ℕ) (buf ys : List ℕ)
    → overwrite (length xs + p) buf (xs ++ ys) ≡ xs ++ overwrite p buf ys
overwrite-append_right [] p buf ys = ap (λ k. overwrite k buf ys) (omega arith)
overwrite-append_right (x ∷ xs) p buf ys =
    ap (λ k. overwrite k buf (x ∷ xs ++ ys))
      (let e : suc (length xs) + p ≡ suc (length xs + p) = omega arith in e)
    ∙ ap (◌∷◌ x) (overwrite-append_right xs p buf ys)

splice-nil : (buf : List ℕ) → splice zero buf [] ≡ buf
splice-nil [] = refl
splice-nil (x ∷ buf) = refl

-- The valid part of the memory after a write is the spliced sequence.
pub take-overwrite :
    (p : ℕ) (buf l : List ℕ) (s n : ℕ)
    → p ≤ s
    → s ≤ length l
    → p + length buf ≤ length l
    → n ≡ max s (p + length buf)
    → take n (overwrite p buf l) ≡ splice p buf (take s l)
take-overwrite zero [] l s n h1 h2 h3 e = rw (overwrite-nil l) (ap (λ k. take k l) (omega arith))
take-overwrite zero (x ∷ buf) [] s n h1 h2 h3 e = absurd (omega arith)
take-overwrite zero (x ∷ buf) (y ∷ l) s zero h1 h2 h3 e = absurd (omega arith)
take-overwrite zero (x ∷ buf) (y ∷ l) zero (suc n) h1 h2 h3 e = ap (◌∷◌ x) (
    take-overwrite zero buf l zero n (omega arith) (omega arith) (omega arith) (omega arith)
    ∙ splice-nil buf)
take-overwrite zero (x ∷ buf) (y ∷ l) (suc s) (suc n) h1 h2 h3 e =
    ap (◌∷◌ x)
      (take-overwrite zero buf l s n (omega arith) (omega arith) (omega arith) (omega arith))
take-overwrite (suc p) buf l zero n h1 h2 h3 e = absurd (omega arith)
take-overwrite (suc p) buf [] (suc s) n h1 h2 h3 e = absurd (omega arith)
take-overwrite (suc p) buf (y ∷ l) (suc s) zero h1 h2 h3 e = absurd (omega arith)
take-overwrite (suc p) buf (y ∷ l) (suc s) (suc n) h1 h2 h3 e =
    ap (◌∷◌ y) (take-overwrite p buf l s n (omega arith) (omega arith) (omega arith) (omega arith))

-- A read that runs over the end of the first block goes on in the second.
pub take-drop-append :
    (n p : ℕ) (xs ys : List ℕ)
    → p ≤ length xs
    → length xs - p ≤ n
    → take n (drop p (xs ++ ys)) ≡ drop p xs ++ take (n - (length xs - p)) ys
take-drop-append n p xs ys h k = rw (drop-append_left p xs ys h) (
    take-append_right (drop p xs) ys n (omega (arith, length-drop p xs))
    ∙ ap (λ m. drop p xs ++ take (n - m) ys) (length-drop p xs))

pub take-drop-append_left :
    (n p : ℕ) (xs ys : List ℕ) → p + n ≤ length xs → take n (drop p (xs ++ ys)) ≡ take n (drop p xs)
take-drop-append_left n p xs ys h =
    rw (drop-append_left p xs ys (omega arith))
      (take-append_left n (drop p xs) ys (omega (arith, length-drop p xs)))

-- What was written is what is read back.
pub take-drop-splice :
    (p : ℕ) (buf l : List ℕ) → p ≤ length l → take (length buf) (drop p (splice p buf l)) ≡ buf
take-drop-splice zero [] l h = refl
take-drop-splice zero (x ∷ buf) [] h = ap (◌∷◌ x) (take_all (length buf) buf (omega arith))
take-drop-splice zero (x ∷ buf) (y ∷ l) h = ap (◌∷◌ x) (take-drop-splice zero buf l (omega arith))
take-drop-splice (suc p) buf [] h = absurd (omega arith)
take-drop-splice (suc p) buf (y ∷ l) h = take-drop-splice p buf l (omega arith)

module _ (base : ℕ) where
  abbrev pub IsFull : List ℕ → Type 0
  IsFull node = length node ≡ base

abbrev pub flat : List (List ℕ) → List ℕ
flat [] = []
flat (node ∷ nodes) = node ++ flat nodes
