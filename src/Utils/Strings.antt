-- ===== src/Utils/Strings.antt =====
-- StringUtil::Trim, TrimLeft and TrimRight, and FSUtil::Dirname.
use phase.Base.{
  ℕ, suc, ◌+◌, ◌-◌, ◌≡◌, refl, ap, sym, ◌∙◌, inl, inr, ◌⊎◌, Bool, true, false, not, ◌||◌, Option,
  none, some, List, [], ◌∷◌, ◌++◌, arith, length, take, drop, ◌==◌, if◌then◌else◌, All, Bool-cases,
  append_assoc, append-nil, take_front, drop_front,
}

abbrev pub one_of : List ℕ → ℕ → Bool
one_of [] c = false
one_of (d ∷ ds) c = (d == c) || one_of ds c

-- `none` is `npos`.
unfoldable pub find_first_not_of : List ℕ → List ℕ → Option ℕ
find_first_not_of [] delimit = none
find_first_not_of (c ∷ str) delimit =
    let rest = find_first_not_of str delimit in
    if not (one_of delimit c) then some 0 else elim rest [ none ↦ none | some i ↦ some (suc i) ]

unfoldable pub find_last_not_of : List ℕ → List ℕ → Option ℕ
find_last_not_of [] delimit = none
find_last_not_of (c ∷ str) delimit =
    let rest = find_last_not_of str delimit in
    elim rest [ none ↦ if not (one_of delimit c) then some 0 else none | some i ↦ some (suc i) ]

unfoldable pub trim : List ℕ → List ℕ → List ℕ
unfolding find_first_not_of find_last_not_of
trim str delimit = elim (find_first_not_of str delimit) [
  | none ↦ []
  | some begin ↦ elim (find_last_not_of str delimit) [
    | none ↦ drop begin str
    | some end ↦ take (end - begin + 1) (drop begin str)
  ]
]

unfoldable pub trim_left : List ℕ → List ℕ → List ℕ
unfolding find_first_not_of
trim_left str delimit = elim (find_first_not_of str delimit) [
  | none ↦ []
  | some begin ↦ drop begin str
]

unfoldable pub trim_right : List ℕ → List ℕ → List ℕ
unfolding find_last_not_of
trim_right str delimit = elim (find_last_not_of str delimit) [ none ↦ [] | some end ↦ take end str ]

-- The position `i` in `str` holds the first byte that is not in `delimit`.
first_lem :
    (str delimit : List ℕ)
    → ((find_first_not_of str delimit ≡ none) × All (λ c. one_of delimit c ≡ true) str)
      ⊎ ((front : List ℕ) × (c : ℕ) × (back : List ℕ) × (str ≡ front ++ c ∷ back)
          × (find_first_not_of str delimit ≡ some (length front))
          × All (λ c. one_of delimit c ≡ true) front
          × (one_of delimit c ≡ false))
unfolding find_first_not_of
first_lem [] delimit = inl (refl, tt)
first_lem (c ∷ str) delimit = elim (Bool-cases (one_of delimit c)) [
  | inr e ↦ inr ([], c, str, refl, rw e refl, tt, e)
  | inl e ↦ elim (first_lem str delimit) [
    | inl none_left ↦ inl (rw (e, none_left.0) refl, (e, none_left.1))
    | inr found ↦ inr (
      c ∷ found.0,
      found.1,
      found.2,
      ap (λ z. c ∷ z) found.3,
      rw (e, found.4) refl,
      (e, found.5),
      found.6,
    )
  ]
]

last_lem :
    (str delimit : List ℕ)
    → ((find_last_not_of str delimit ≡ none) × All (λ c. one_of delimit c ≡ true) str)
      ⊎ ((front : List ℕ) × (c : ℕ) × (back : List ℕ) × (str ≡ front ++ c ∷ back)
          × (find_last_not_of str delimit ≡ some (length front))
          × All (λ c. one_of delimit c ≡ true) back
          × (one_of delimit c ≡ false))
unfolding find_last_not_of
last_lem [] delimit = inl (refl, tt)
last_lem (c ∷ str) delimit = elim (last_lem str delimit) [
  | inr found ↦
      inr
        (c ∷ found.0, found.1, found.2, ap (λ z. c ∷ z) found.3, rw found.4 refl, found.5, found.6)
  | inl none_left ↦ elim (Bool-cases (one_of delimit c)) [
    | inl e ↦ inl (rw (none_left.0, e) refl, (e, none_left.1))
    | inr e ↦ inr ([], c, str, refl, rw (none_left.0, e) refl, none_left.1, e)
  ]
]

-- TrimRight cuts one byte too many: unless every byte is a delimiter (then the result is empty), the
-- string is the result, one more byte that is no delimiter, and delimiters.
pub trim_right_lem :
    (str delimit : List ℕ)
    → ((trim_right str delimit ≡ []) × All (λ c. one_of delimit c ≡ true) str)
      ⊎ ((c : ℕ) × (back : List ℕ) × (str ≡ trim_right str delimit ++ c ∷ back)
          × (one_of delimit c ≡ false)
          × All (λ c. one_of delimit c ≡ true) back)
unfolding trim_right
trim_right_lem str delimit = elim (last_lem str delimit) [
  | inl none_left ↦ inl (rw (none_left.0, trim_right) refl, none_left.1)
  | inr found ↦
      let kept : take (length found.0) str ≡ found.0 =
        ap (take (length found.0)) found.3 ∙ take_front found.0 _ in
      inr (
        found.1,
        found.2,
        rw (found.4, trim_right) (found.3 ∙ ap (λ z. z ++ found.1 ∷ found.2) (sym kept)),
        found.6,
        found.5,
      )
]

-- TrimLeft cuts exactly the leading delimiters: the string is delimiters and the result, which is
-- empty or begins with a byte that is no delimiter.
pub trim_left_lem :
    (str delimit : List ℕ)
    → (front : List ℕ) × (str ≡ front ++ trim_left str delimit)
      × All (λ c. one_of delimit c ≡ true) front
      × ((trim_left str delimit ≡ [])
          ⊎ ((c : ℕ) × (back : List ℕ) × (trim_left str delimit ≡ c ∷ back)
              × (one_of delimit c ≡ false)))
unfolding trim_left
trim_left_lem str delimit = elim (first_lem str delimit) [
  | inl none_left ↦ (
    str,
    rw (none_left.0, trim_left) (sym (append-nil str)),
    none_left.1,
    inl (rw (none_left.0, trim_left) refl),
  )
  | inr found ↦
      let rest : drop (length found.0) str ≡ found.1 ∷ found.2 =
        ap (drop (length found.0)) found.3 ∙ drop_front found.0 _ in
      (
        found.0,
        rw (found.4, trim_left) (found.3 ∙ ap (λ z. found.0 ++ z) (sym rest)),
        found.5,
        inr (found.1, found.2, rw (found.4, trim_left) rest, found.6),
      )
]

last_after :
    (front str delimit : List ℕ) (i : ℕ)
    → find_last_not_of str delimit ≡ some i
    → find_last_not_of (front ++ str) delimit ≡ some (length front + i)
unfolding find_last_not_of
last_after [] str delimit i e = e ∙ ap some (omega arith)
last_after (c ∷ front) str delimit i e =
    rw (last_after front str delimit i e) (ap some (omega arith))

take_one_more :
    (front : List ℕ) (c : ℕ) (back : List ℕ)
    → take (suc (length front)) (front ++ c ∷ back) ≡ front ++ c ∷ []
take_one_more [] c back = refl
take_one_more (x ∷ front) c back = ap (λ z. x ∷ z) (take_one_more front c back)

-- With the first kept byte `c` found behind `front`, Trim cuts what comes behind the last kept byte.
trim_found :
    (delimit front back : List ℕ) (c i : ℕ)
    → find_first_not_of (front ++ c ∷ back) delimit ≡ some (length front)
    → find_last_not_of (c ∷ back) delimit ≡ some i
    → trim (front ++ c ∷ back) delimit ≡ take (suc i) (c ∷ back)
unfolding trim
trim_found delimit front back c i first last =
    let len : length front + i - length front + 1 ≡ suc i = omega arith in
    rw (first, last_after front (c ∷ back) delimit i last, trim)
      (ap (λ z. take (length front + i - length front + 1) z) (drop_front front (c ∷ back))
        ∙ ap (λ k. take k (c ∷ back)) len)

starts_with :
    (c : ℕ) (back mid : List ℕ) (last : ℕ) (late : List ℕ)
    → c ∷ back ≡ mid ++ last ∷ late
    → (rest : List ℕ) × (mid ++ last ∷ [] ≡ c ∷ rest)
starts_with c back [] last late e = ([], ap (take 1) (sym e))
starts_with c back (x ∷ mid) last late e =
    (mid ++ last ∷ [], ap (λ z. z ++ (mid ++ last ∷ [])) (ap (take 1) (sym e)))

glued :
    (front mid : List ℕ) (last : ℕ) (late : List ℕ)
    → front ++ (mid ++ last ∷ late) ≡ front ++ (mid ++ last ∷ []) ++ late
glued front mid last late = sym (
    append_assoc front (mid ++ last ∷ []) late
    ∙ ap (λ z. front ++ z) (append_assoc mid (last ∷ []) late))

-- Trim cuts exactly the delimiters at both ends: the string is delimiters, the result, and
-- delimiters, and the result is empty, or its first byte and its last are no delimiters.
pub trim_lem :
    (str delimit : List ℕ)
    → (front : List ℕ) × (back : List ℕ) × (str ≡ front ++ trim str delimit ++ back)
      × All (λ c. one_of delimit c ≡ true) front
      × All (λ c. one_of delimit c ≡ true) back
      × ((trim str delimit ≡ [])
          ⊎ (((c : ℕ) × (rest : List ℕ) × (trim str delimit ≡ c ∷ rest)
                × (one_of delimit c ≡ false))
              × ((rest : List ℕ) × (c : ℕ) × (trim str delimit ≡ rest ++ c ∷ [])
                  × (one_of delimit c ≡ false))))
trim_lem str delimit = elim (first_lem str delimit) [
  | inl none_left ↦
      let empty : trim str delimit ≡ [] = unfold trim in rw (none_left.0, trim) refl in
      (
        str,
        [],
        sym (ap (λ z. str ++ z ++ []) empty ∙ append-nil (str ++ []) ∙ append-nil str),
        none_left.1,
        tt,
        inl empty,
      )
  | inr (front, c, back, cut, first, early, keeps) ↦ elim (last_lem (c ∷ back) delimit) [
    | inl none_left ↦ absurd (ground (arith, none_left.1.0, keeps))
    | inr (mid, last, late, cut', last_at, after, keeps') ↦
        let result : trim str delimit ≡ mid ++ last ∷ [] =
          ap (λ z. trim z delimit) cut
          ∙ trim_found delimit front back c (length mid)
              (ap (λ z. find_first_not_of z delimit) (sym cut) ∙ first) last_at
          ∙ ap (take (suc (length mid))) cut'
          ∙ take_one_more mid last late in
        let (rest, starts) = starts_with c back mid last late cut' in
        (
          front,
          late,
          cut
              ∙ ap (λ z. front ++ z) cut'
              ∙ glued front mid last late
              ∙ ap (λ z. front ++ z ++ late) (sym result),
          early,
          after,
          inr ((c, rest, result ∙ starts, keeps), (mid, last, result, keeps')),
        )
  ]
]
