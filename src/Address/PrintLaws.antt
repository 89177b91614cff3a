-- ===== src/Address/PrintLaws.antt =====
-- What IPv6Address::insert of src/socket/address.cc prints.
use phase.Base.{
  ℕ, zero, suc, ◌+◌, ◌≡◌, refl, ap, sym, ◌∙◌, arith, Bool, true, false, not, ◌&&◌, List, [], ◌∷◌,
  ◌++◌, ◌==◌, if◌then◌else◌, All, append_assoc, append-nil, replicate,
}
use phase.ByteArray.State.{Endian}
use phase.Http.Dump.{decimal}
use phase.Address.Masks.{swap_on_little}
use phase.Address.Printing.{group_text, groups_from, insert_ipv6}

abbrev pub NonZero : ℕ → Type 0
NonZero g = (g == 0) ≡ false

-- What stands behind a run of zeros: nothing, or a group that is not zero.
abbrev pub Opens : List ℕ → Type 0
Opens [] = Unit
Opens (g ∷ groups) = NonZero g

module _ (host : Endian) where
  -- Each group behind a colon.
  abbrev pub behind_colons : List ℕ → List ℕ
  behind_colons [] = []
  behind_colons (g ∷ groups) = 58 ∷ (group_text host g ++ behind_colons groups)

  -- The groups with colons between them.
  abbrev pub joined : List ℕ → List ℕ
  joined [] = []
  joined (g ∷ groups) = group_text host g ++ behind_colons groups

  later : (i : ℕ) → (i + 1 == 0) ≡ false
  later i = ground arith

  -- Once a run of zeros is left out, every group is printed.
  used_step :
      (i before g : ℕ) (groups : List ℕ)
      → (i == 0) ≡ false
      → groups_from host i before true (g ∷ groups)
        ≡ 58 ∷ (group_text host g ++ groups_from host (i + 1) g true groups)
  unfolding groups_from
  used_step i before g groups h = by_tests (before == 0) (g == 0)
    where
      by_tests :
          (b c : Bool)
          → (if c && false
              then groups_from host (i + 1) g true groups
              else (if not (i == 0) && b && false then 58 ∷ [] else [])
                ++ (if i == 0 then [] else 58 ∷ [])
                ++ group_text host g
                ++ groups_from host (i + 1) g true groups)
            ≡ 58 ∷ (group_text host g ++ groups_from host (i + 1) g true groups)
      by_tests true true = rw h refl
      by_tests true false = rw h refl
      by_tests false true = rw h refl
      by_tests false false = rw h refl

  used_from :
      (i before : ℕ) (groups : List ℕ)
      → (i == 0) ≡ false
      → groups_from host i before true groups ≡ behind_colons groups
  used_from i before [] h = unfold groups_from in refl
  used_from i before (g ∷ groups) h =
      used_step i before g groups h
      ∙ ap (λ z. 58 ∷ (group_text host g ++ z)) (used_from (i + 1) g groups (later i))

  -- A zero is passed over while no run was left out.
  zero_step :
      (i before : ℕ) (groups : List ℕ)
      → groups_from host i before false (0 ∷ groups) ≡ groups_from host (i + 1) 0 false groups
  unfolding groups_from
  zero_step i before groups = refl

  -- The first group behind a run of zeros stands behind two colons.
  opening_step :
      (i g : ℕ) (groups : List ℕ)
      → (i == 0) ≡ false
      → NonZero g
      → groups_from host i 0 false (g ∷ groups)
        ≡ 58 ∷ 58 ∷ (group_text host g ++ groups_from host (i + 1) g true groups)
  unfolding groups_from
  opening_step i g groups h n = rw (h, n, groups_from) refl

  -- A group behind one that is not zero.
  plain_step :
      (i before g : ℕ) (groups : List ℕ)
      → (i == 0) ≡ false
      → NonZero before
      → NonZero g
      → groups_from host i before false (g ∷ groups)
        ≡ 58 ∷ (group_text host g ++ groups_from host (i + 1) g false groups)
  unfolding groups_from
  plain_step i before g groups h b n = rw (h, b, n, groups_from) refl

  first_step :
      (before g : ℕ) (groups : List ℕ)
      → NonZero g
      → groups_from host 0 before false (g ∷ groups)
        ≡ group_text host g ++ groups_from host 1 g false groups
  unfolding groups_from
  first_step before g groups n = rw (n, groups_from) refl

  run_lem :
      (n i : ℕ) (back : List ℕ)
      → (i == 0) ≡ false
      → Opens back
      → groups_from host i 0 false (replicate n 0 ++ back) ≡ 58 ∷ 58 ∷ joined back
  run_lem zero i [] h o = unfold groups_from in refl
  run_lem zero i (g ∷ groups) h o =
      opening_step i g groups h o
      ∙ ap (λ z. 58 ∷ 58 ∷ (group_text host g ++ z)) (used_from (i + 1) g groups (later i))
  run_lem (suc n) i back h o =
      zero_step i 0 (replicate n 0 ++ back) ∙ run_lem n (i + 1) back (later i) o

  -- What follows the groups that are not zero, behind at least one of them.
  behind_lem :
      (front : List ℕ) (i before : ℕ) (rest text : List ℕ)
      → (i == 0) ≡ false
      → NonZero before
      → All NonZero front
      → ((k last : ℕ) → (k == 0) ≡ false → NonZero last → groups_from host k last false rest ≡ text)
      → groups_from host i before false (front ++ rest) ≡ behind_colons front ++ text
  behind_lem [] i before rest text h b a end = end i before h b
  behind_lem (g ∷ front) i before rest text h b (n, a) end =
      plain_step i before g (front ++ rest) h b n
      ∙ ap (λ z. 58 ∷ (group_text host g ++ z))
          (behind_lem front (i + 1) g rest text (later i) n a end)
      ∙ ap (λ z. 58 ∷ z) (sym (append_assoc (group_text host g) (behind_colons front) text))

  groups_lem :
      (front : List ℕ) (rest text : List ℕ)
      → All NonZero front
      → groups_from host 0 0 false rest ≡ text
      → ((k last : ℕ) → (k == 0) ≡ false → NonZero last → groups_from host k last false rest ≡ text)
      → groups_from host 0 0 false (front ++ rest) ≡ joined front ++ text
  groups_lem [] rest text a begin end = begin
  groups_lem (g ∷ front) rest text (n, a) begin end =
      first_step 0 g (front ++ rest) n
      ∙ ap (λ z. group_text host g ++ z) (behind_lem front 1 g rest text refl n a end)
      ∙ sym (append_assoc (group_text host g) (behind_colons front) text)

  ended : (k last : ℕ) → (k == 0) ≡ false → NonZero last → groups_from host k last false [] ≡ []
  unfolding groups_from
  ended k last h n = rw (n, groups_from) refl

-- An IPv6 address is printed in brackets, its groups in hexadecimal with colons between them, and then its
-- port: the first run of groups that are zero, however long, is printed as two colons, and later zeros as
-- groups. Without a zero all groups are printed.
pub insert_ipv6_lem :
    (host : Endian) (front : List ℕ) (n : ℕ) (back : List ℕ) (g : ℕ) (groups : List ℕ) (port : ℕ)
    → All NonZero front
    → Opens back
    → All NonZero (g ∷ groups)
    → (insert_ipv6 host (front ++ (0 ∷ replicate n 0 ++ back)) port
        ≡ 91
          ∷ (joined host front
              ++ (58 ∷ 58 ∷ joined host back)
              ++ (93 ∷ 58 ∷ decimal (swap_on_little host 2 port))))
      × (insert_ipv6 host (g ∷ groups) port
          ≡ 91 ∷ (joined host (g ∷ groups) ++ (93 ∷ 58 ∷ decimal (swap_on_little host 2 port))))
unfolding insert_ipv6
insert_ipv6_lem host front n back g groups port a o (m, b) = (
  ap (λ z. 91 ∷ (z ++ (93 ∷ 58 ∷ decimal (swap_on_little host 2 port))))
      (groups_lem host front (0 ∷ replicate n 0 ++ back) (58 ∷ 58 ∷ joined host back) a
        (zero_step host 0 0 (replicate n 0 ++ back) ∙ run_lem host n 1 back refl o)
        (λ k last h e.
          zero_step host k last (replicate n 0 ++ back)
          ∙ run_lem host n (k + 1) back (later host k) o)),
  ap (λ z. 91 ∷ (z ++ (93 ∷ 58 ∷ decimal (swap_on_little host 2 port))))
      (first_step host 0 g groups m
        ∙ ap (λ z. group_text host g ++ groups_from host 1 g false z) (sym (append-nil groups))
        ∙ ap (λ z. group_text host g ++ z)
            (behind_lem host groups 1 g [] [] refl m b (λ k last h e. ended host k last h e)
              ∙ append-nil (behind_colons host groups))),
)
