-- ===== src/Address/LookupLaws.antt =====
-- How Address::Lookup of src/socket/address.cc takes its argument apart.
use phase.Base.{
  ℕ, suc, ◌+◌, ◌≡◌, refl, ap, ◌∙◌, arith, false, none, some, List, [], ◌∷◌, ◌++◌, drop, length,
  ◌==◌, ◌⊎◌, inl, inr, Bool-cases, if◌then◌else◌, All, take_front, drop_front,
}
use phase.Address.Lookup.{memchr, char_at, bracketed, colon_parts, or_whole, split_host, is_empty}

-- The text does not hold the byte.
abbrev pub Lacks : ℕ → List ℕ → Type 0
Lacks c text = All (λ d. (d == c) ≡ false) text

memchr-none : (c : ℕ) (text : List ℕ) → Lacks c text → memchr c text ≡ none
memchr-none c [] h = refl
memchr-none c (d ∷ text) (e, h) = rw (e, memchr-none c text h) refl

memchr_at :
    (c : ℕ) (front rest : List ℕ)
    → Lacks c front
    → memchr c (front ++ c ∷ rest) ≡ some (length front)
memchr_at c [] rest h = ground arith
memchr_at c (d ∷ front) rest (e, h) =
    rw (e, memchr_at c front rest h)
      (ap some (let q : length front + 1 ≡ suc (length front) = omega arith in q))

char_behind :
    (front rest : List ℕ) (c d : ℕ) → char_at (front ++ c ∷ d ∷ rest) (length front + 1) ≡ d
char_behind [] rest c d = refl
char_behind (x ∷ front) rest c d =
    ap (char_at (x ∷ (front ++ c ∷ d ∷ rest)))
      (let q : suc (length front) + 1 ≡ suc (length front + 1) = omega arith in q)
    ∙ char_behind front rest c d

char_end : (front : List ℕ) (c : ℕ) → char_at (front ++ c ∷ []) (length front + 1) ≡ 0
char_end [] c = refl
char_end (x ∷ front) c =
    ap (char_at (x ∷ (front ++ c ∷ [])))
      (let q : suc (length front) + 1 ≡ suc (length front + 1) = omega arith in q)
    ∙ char_end front c

drop_more : (front rest : List ℕ) (c : ℕ) → drop (length front + 1) (front ++ c ∷ rest) ≡ rest
drop_more [] rest c = refl
drop_more (x ∷ front) rest c =
    ap (λ k. drop k (x ∷ (front ++ c ∷ rest)))
      (let q : suc (length front) + 1 ≡ suc (length front + 1) = omega arith in q)
    ∙ drop_more front rest c

drop_two : (front rest : List ℕ) (c d : ℕ) → drop (length front + 2) (front ++ c ∷ d ∷ rest) ≡ rest
drop_two [] rest c d = refl
drop_two (x ∷ front) rest c d =
    ap (λ k. drop k (x ∷ (front ++ c ∷ d ∷ rest)))
      (let q : suc (length front) + 2 ≡ suc (length front + 2) = omega arith in q)
    ∙ drop_two front rest c d

-- A host that has no text between brackets at its beginning: another byte, no ']', or "[]".
abbrev pub Unbracketed : List ℕ → Type 0
Unbracketed [] = Unit
Unbracketed (c ∷ text) =
    ((c == 91) ≡ false) ⊎ Lacks 93 text ⊎ ((rest : List ℕ) × (text ≡ 93 ∷ rest))

-- A text that does not begin with ':'.
abbrev pub NotColon : List ℕ → Type 0
NotColon [] = Unit
NotColon (c ∷ text) = (c == 58) ≡ false

no_node : (host : List ℕ) → Unbracketed host → (bracketed host).0 ≡ []
unfolding bracketed
no_node [] u = refl
no_node (c ∷ text) (inl p) = rw (p, bracketed) refl
no_node (c ∷ text) (inr (inl l)) = elim (Bool-cases (c == 91)) [
  | inl e ↦ rw (e, memchr-none 93 text l, bracketed) refl
  | inr e ↦ rw (e, bracketed) refl
]
no_node (c ∷ text) (inr (inr (rest, e))) = elim (Bool-cases (c == 91)) [
  | inl f ↦ rw (f, e, bracketed) refl
  | inr f ↦ rw (f, bracketed) refl
]

unbracketed :
    (host : List ℕ) → Unbracketed host → split_host host ≡ or_whole host (colon_parts host)
unfolding split_host
unbracketed host u =
    ap (λ n. or_whole host (if is_empty n then colon_parts host else bracketed host))
      (no_node host u)

bracketed_service :
    (text service : List ℕ)
    → Lacks 93 text
    → bracketed (91 ∷ (text ++ 93 ∷ 58 ∷ service)) ≡ (text, some service)
unfolding bracketed
bracketed_service text service h =
    rw
      (
        memchr_at 93 text (58 ∷ service) h,
        char_behind text service 93 58,
        drop_two text service 93 58,
        take_front text (93 ∷ 58 ∷ service),
        bracketed,
      )
      refl

bracketed_alone :
    (text rest : List ℕ)
    → Lacks 93 text
    → NotColon rest
    → bracketed (91 ∷ (text ++ 93 ∷ rest)) ≡ (text, none)
unfolding bracketed
bracketed_alone text [] h n =
    rw (memchr_at 93 text [] h, char_end text 93, take_front text (93 ∷ []), bracketed) refl
bracketed_alone text (d ∷ rest) h n =
    rw
      (
        memchr_at 93 text (d ∷ rest) h,
        char_behind text rest 93 d,
        n,
        take_front text (93 ∷ d ∷ rest),
        bracketed,
      )
      refl

one_colon :
    (name service : List ℕ)
    → Lacks 58 name
    → Lacks 58 service
    → colon_parts (name ++ 58 ∷ service) ≡ (name, some service)
unfolding colon_parts
one_colon name service h k =
    rw
      (
        memchr_at 58 name service h,
        drop_more name service 58,
        memchr-none 58 service k,
        take_front name (58 ∷ service),
        colon_parts,
      )
      (ap (λ z. (name, some z)) (drop_more name service 58))

no_colon : (name : List ℕ) → Lacks 58 name → colon_parts name ≡ ([], none)
unfolding colon_parts
no_colon name h = rw (memchr-none 58 name h, colon_parts) refl

two_colons :
    (front middle last : List ℕ)
    → Lacks 58 front
    → Lacks 58 middle
    → colon_parts (front ++ 58 ∷ (middle ++ 58 ∷ last)) ≡ ([], some (58 ∷ (middle ++ 58 ∷ last)))
unfolding colon_parts
two_colons front middle last h k =
    rw
      (
        memchr_at 58 front (middle ++ 58 ∷ last) h,
        drop_more front (middle ++ 58 ∷ last) 58,
        memchr_at 58 middle last k,
        drop_front front (58 ∷ (middle ++ 58 ∷ last)),
        colon_parts,
      )
      refl

one_colon_whole :
    (name service : List ℕ)
    → or_whole (name ++ 58 ∷ service) (name, some service)
      ≡ (if is_empty name then name ++ 58 ∷ service else name, some service)
one_colon_whole [] service = refl
one_colon_whole (c ∷ name) service = refl

-- Lookup asks getaddrinfo for: the text between brackets, if there is any, with the service behind "]:",
-- and with none where something else or nothing is behind the ']'. Of a host without a text in brackets,
-- for the name before its only colon, with the service behind it, the name being the whole again where
-- it is empty; for the whole, with no service, where there is no colon; and where there are two colons,
-- as in an IPv6 address, for the whole with, as the service, all of it from the first colon on.
pub split_host_lem :
    (x : ℕ) (v6 rest name service alone front middle last : List ℕ)
    → Lacks 93 (x ∷ v6)
    → NotColon rest
    → Unbracketed (name ++ 58 ∷ service)
    → Lacks 58 name
    → Lacks 58 service
    → Unbracketed alone
    → Lacks 58 alone
    → Unbracketed (front ++ 58 ∷ (middle ++ 58 ∷ last))
    → Lacks 58 front
    → Lacks 58 middle
    → (split_host (91 ∷ (x ∷ v6 ++ 93 ∷ 58 ∷ service)) ≡ (x ∷ v6, some service))
      × (split_host (91 ∷ (x ∷ v6 ++ 93 ∷ rest)) ≡ (x ∷ v6, none))
      × (split_host (name ++ 58 ∷ service)
          ≡ (if is_empty name then name ++ 58 ∷ service else name, some service))
      × (split_host alone ≡ (alone, none))
      × (split_host (front ++ 58 ∷ (middle ++ 58 ∷ last))
          ≡ (front ++ 58 ∷ (middle ++ 58 ∷ last), some (58 ∷ (middle ++ 58 ∷ last))))
unfolding split_host
split_host_lem x v6 rest name service alone front middle last b r u n s v a w f m = (
  rw (bracketed_service (x ∷ v6) service b, split_host) refl,
  rw (bracketed_alone (x ∷ v6) rest b r, split_host) refl,
  unbracketed (name ++ 58 ∷ service) u
      ∙ ap (or_whole _) (one_colon name service n s)
      ∙ one_colon_whole name service,
  unbracketed alone v ∙ ap (or_whole _) (no_colon alone a),
  unbracketed _ w ∙ ap (or_whole _) (two_colons front middle last f m),
)
