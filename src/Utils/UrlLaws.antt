-- ===== src/Utils/UrlLaws.antt =====
-- UrlEncode and UrlDecode byte by byte, and their round trip.
use phase.Base.{
  ℕ, zero, suc, ◌/◌, ◌%◌, ◌<◌, ◌≡◌, refl, ap, sym, subst, ◌∙◌, inl, inr, Bool, true, false, not,
  ◌&&◌, ◌||◌, Option, none, some, List, [], ◌∷◌, ◌++◌, arith, length, take, drop, ◌==◌,
  if◌then◌else◌, All, Bool-cases, append_assoc, append-nil, take-append-drop,
}
use phase.Utils.Url.{
  hexdigits, at, unreserved, isxdigit, escape, opened, append_if, or_same, encode_loop, url_encode,
  two_digits, digits_value, decode_loop, url_decode,
}

-- What UrlEncode makes of one byte, and of a string.
abbrev pub encode_byte : Bool → ℕ → List ℕ
encode_byte plus c = if unreserved c then c ∷ [] else escape plus c

unfoldable pub encoded : Bool → List ℕ → List ℕ
encoded plus [] = []
encoded plus (c ∷ rest) = encode_byte plus c ++ encoded plus rest

-- What UrlDecode makes of a string, with `skip` bytes to pass first.
unfoldable pub decoded : Bool → ℕ → List ℕ → List ℕ
decoded plus skip [] = []
decoded plus (suc skip) (c ∷ rest) = decoded plus skip rest
decoded plus zero (c ∷ rest) =
    if c == 43 && plus
    then 32 ∷ decoded plus 0 rest
    else if c == 37 && two_digits rest
    then digits_value rest ∷ decoded plus 2 rest
    else c ∷ decoded plus 0 rest

drop_next :
    (i : ℕ) (str : List ℕ) (c : ℕ) (rest : List ℕ)
    → drop i str ≡ c ∷ rest
    → (drop (suc i) str ≡ rest) × (take (suc i) str ≡ take i str ++ c ∷ [])
drop_next zero [] c rest e = absurd (omega (arith, ap length e))
drop_next zero (x ∷ str) c rest e = (ap (drop 1) e, ap (take 1) e)
drop_next (suc i) [] c rest e = absurd (omega (arith, ap length e))
drop_next (suc i) (x ∷ str) c rest e =
    let (p, q) = drop_next i str c rest e in (p, ap (λ z. x ∷ z) q)

all_copied : (i : ℕ) (str : List ℕ) → drop i str ≡ [] → str ≡ take i str
all_copied i str e =
    sym (take-append-drop i str) ∙ ap (λ z. take i str ++ z) e ∙ append-nil (take i str)

opened_more :
    (str : List ℕ) (i c : ℕ) (rest : List ℕ) (ss : Option (List ℕ))
    → drop i str ≡ c ∷ rest
    → opened str (suc i) (append_if ss c) ≡ opened str i ss ++ c ∷ []
opened_more str i c rest none e = (drop_next i str c rest e).1
opened_more str i c rest (some ss) e = refl

opened_step :
    (str : List ℕ) (plus : Bool) (i c : ℕ) (rest : List ℕ) (ss : Option (List ℕ))
    → drop i str ≡ c ∷ rest
    → opened str
        (suc i)
        (if not (unreserved c) then some (opened str i ss ++ escape plus c) else append_if ss c)
      ≡ opened str i ss ++ encode_byte plus c
opened_step str plus i c rest ss e = elim (Bool-cases (unreserved c)) [
  | inl f ↦ rw f (opened_more str i c rest ss e)
  | inr f ↦ rw f refl
]

encode_loop_lem :
    (str : List ℕ) (plus : Bool) (i : ℕ) (rest : List ℕ) (ss : Option (List ℕ))
    → drop i str ≡ rest
    → or_same str (encode_loop str plus i rest ss) ≡ opened str i ss ++ encoded plus rest
unfolding encode_loop encoded
encode_loop_lem str plus i [] none e = all_copied i str e ∙ sym (append-nil (take i str))
encode_loop_lem str plus i [] (some ss) e = sym (append-nil ss)
encode_loop_lem str plus i (c ∷ rest) ss e =
    encode_loop_lem str plus (suc i) rest _ (drop_next i str c rest e).0
    ∙ ap (λ z. z ++ encoded plus rest) (opened_step str plus i c rest ss e)
    ∙ append_assoc (opened str i ss) (encode_byte plus c) (encoded plus rest)

-- UrlEncode, which copies the string only from the first reserved byte on, encodes each byte by
-- itself.
pub url_encode-encoded : (str : List ℕ) (plus : Bool) → url_encode str plus ≡ encoded plus str
unfolding url_encode
url_encode-encoded str plus = encode_loop_lem str plus 0 str none refl

decode_some :
    (str : List ℕ) (plus : Bool) (skip i : ℕ) (rest ss : List ℕ)
    → or_same str (decode_loop str plus skip i rest (some ss)) ≡ ss ++ decoded plus skip rest
unfolding decode_loop decoded
decode_some str plus skip i [] ss = sym (append-nil ss)
decode_some str plus (suc skip) i (c ∷ rest) ss = decode_some str plus skip (suc i) rest ss
decode_some str plus zero i (c ∷ rest) ss = elim (Bool-cases (c == 43 && plus)) [
  | inl f ↦ rw f (
      decode_some str plus 0 (suc i) rest (ss ++ 32 ∷ [])
      ∙ append_assoc ss (32 ∷ []) (decoded plus 0 rest))
  | inr f ↦ elim (Bool-cases (c == 37 && two_digits rest)) [
    | inl g ↦
        rw (f, g)
          (decode_some str plus 2 (suc i) rest (ss ++ digits_value rest ∷ [])
            ∙ append_assoc ss (digits_value rest ∷ []) (decoded plus 2 rest))
    | inr g ↦
        rw (f, g)
          (decode_some str plus 0 (suc i) rest (ss ++ c ∷ [])
            ∙ append_assoc ss (c ∷ []) (decoded plus 0 rest))
  ]
]

decode_none :
    (str : List ℕ) (plus : Bool) (i : ℕ) (rest : List ℕ)
    → drop i str ≡ rest
    → or_same str (decode_loop str plus 0 i rest none) ≡ take i str ++ decoded plus 0 rest
unfolding decode_loop decoded
decode_none str plus i [] e = all_copied i str e ∙ sym (append-nil (take i str))
decode_none str plus i (c ∷ rest) e = elim (Bool-cases (c == 43 && plus)) [
  | inl f ↦ rw f (
      decode_some str plus 0 (suc i) rest (take i str ++ 32 ∷ [])
      ∙ append_assoc (take i str) (32 ∷ []) (decoded plus 0 rest))
  | inr f ↦ elim (Bool-cases (c == 37 && two_digits rest)) [
    | inl g ↦
        rw (f, g)
          (decode_some str plus 2 (suc i) rest (take i str ++ digits_value rest ∷ [])
            ∙ append_assoc (take i str) (digits_value rest ∷ []) (decoded plus 2 rest))
    | inr g ↦
        rw (f, g)
          (decode_none str plus (suc i) rest (drop_next i str c rest e).0
            ∙ ap (λ z. z ++ decoded plus 0 rest) (drop_next i str c rest e).1
            ∙ append_assoc (take i str) (c ∷ []) (decoded plus 0 rest))
  ]
]

-- UrlDecode, which copies the string only from the first escape on, decodes from left to right: a
-- '+' if it stands for a space, an escape of two digits, and any other byte as itself.
pub url_decode-decoded : (str : List ℕ) (plus : Bool) → url_decode str plus ≡ decoded plus 0 str
unfolding url_decode
url_decode-decoded str plus = decode_none str plus 0 str refl

-- A test of every byte below `n`, done by evaluation.
abbrev pub passes : (ℕ → Bool) → ℕ → Bool
passes test zero = true
passes test (suc n) = if test n then passes test n else false

pub passes_lem : (test : ℕ → Bool) (n c : ℕ) → passes test n ≡ true → c < n → test c ≡ true
passes_lem test zero c e h = absurd (omega arith)
passes_lem test (suc n) c e h = elim (Bool-cases (test n)) [
  | inl f ↦ elim (Bool-cases (c == n)) [
    | inl g ↦ let same : n ≡ c = ground arith in subst (λ z. test z ≡ true) same f
    | inr g ↦ passes_lem test n c (ground (arith, e, f)) (ground arith)
  ]
  | inr f ↦ absurd (ground (arith, e, f))
]

abbrev plain_test : ℕ → Bool
plain_test c = not (unreserved c) || (not (c == 43) && not (c == 37))

abbrev digits_test : ℕ → Bool
digits_test c =
    (isxdigit (at hexdigits (c / 16)) && isxdigit (at hexdigits (c % 16)))
    && (digits_value (at hexdigits (c / 16) ∷ at hexdigits (c % 16) ∷ []) == c)

plain_passes : passes plain_test 256 ≡ true
unfolding unreserved
plain_passes = refl

digits_passes : passes digits_test 256 ≡ true
unfolding isxdigit
digits_passes = refl

unreserved_plain :
    (c : ℕ) → c < 256 → unreserved c ≡ true → ((c == 43) ≡ false) × ((c == 37) ≡ false)
unreserved_plain c h e =
    let t = passes_lem plain_test 256 c plain_passes h in
    (ground (arith, t, e), ground (arith, t, e))

both : (a b : Bool) → (a && b) ≡ true → (a ≡ true) × (b ≡ true)
both true b e = (refl, e)
both false b e = absurd (ground (arith, e))

same_number : (x y : ℕ) → (x == y) ≡ true → x ≡ y
same_number x y e = ground arith

clash_bool : {A : Type 0} → false ≡ true → A
clash_bool e = absurd (ground (arith, e))

escaped_digits :
    (c : ℕ)
    → c < 256
    → ((isxdigit (at hexdigits (c / 16)) && isxdigit (at hexdigits (c % 16))) ≡ true)
      × (digits_value (at hexdigits (c / 16) ∷ at hexdigits (c % 16) ∷ []) ≡ c)
escaped_digits c h =
    let t = both _ _ (passes_lem digits_test 256 c digits_passes h) in (t.0, same_number _ c t.1)

decode_space :
    (c : ℕ) (e d : Bool) (rest : List ℕ)
    → (c == 32 && e) ≡ true
    → decoded (e || d) 0 (43 ∷ rest) ≡ c ∷ decoded (e || d) 0 rest
unfolding decoded
decode_space c true d rest g =
    ap (λ z. z ∷ decoded true 0 rest) (sym (same_number c 32 (both (c == 32) true g).0))
decode_space c false d rest g = clash_bool (both (c == 32) false g).1

decode_byte :
    (c : ℕ) (e d : Bool) (rest : List ℕ)
    → c < 256
    → decoded (e || d) 0 (encode_byte e c ++ rest) ≡ c ∷ decoded (e || d) 0 rest
unfolding decoded escape
decode_byte c e d rest h = elim (Bool-cases (unreserved c)) [
  | inl f ↦ let plain = unreserved_plain c h f in rw (f, plain.0, plain.1) refl
  | inr f ↦ elim (Bool-cases (c == 32 && e)) [
    | inl g ↦ rw (f, g) (decode_space c e d rest g)
    | inr g ↦
        rw (f, g)
          (let digits = escaped_digits c h in
            rw digits.0 (ap (λ z. z ∷ decoded (e || d) 0 rest) digits.1))
  ]
]

decoded-encoded :
    (str : List ℕ) (e d : Bool) → All (λ c. c < 256) str → decoded (e || d) 0 (encoded e str) ≡ str
unfolding encoded
decoded-encoded [] e d h = unfold decoded in refl
decoded-encoded (c ∷ rest) e d (b, h) =
    decode_byte c e d (encoded e rest) b ∙ ap (λ z. c ∷ z) (decoded-encoded rest e d h)

-- UrlDecode gives back any string of bytes that UrlEncode encoded, if it takes '+' for a space
-- whenever the encoder does.
pub url_decode-url_encode :
    (str : List ℕ) (e d : Bool)
    → All (λ c. c < 256) str
    → url_decode (url_encode str e) (e || d) ≡ str
url_decode-url_encode str e d h =
    ap (λ z. url_decode z (e || d)) (url_encode-encoded str e)
    ∙ url_decode-decoded (encoded e str) (e || d)
    ∙ decoded-encoded str e d h
