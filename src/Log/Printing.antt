-- ===== src/Log/Printing.antt =====
-- A pattern that was put together from texts and directives is read back by LogFormatter::init of
-- src/log/Logger.cc.
use phase.Base.{
  ℕ, suc, ◌+◌, ◌-◌, ◌<◌, ◌≡◌, ap, sym, ◌∙◌, Bool, true, false, not, ◌&&◌, Option, none, some, List,
  [], ◌∷◌, ◌++◌, length, drop, ltb, ◌==◌, if◌then◌else◌, arith, All, length-drop, drop-drop,
  length-append, append_assoc, append-nil, drop_front,
}
use phase.Log.Pattern.{
  byte_at, isalpha, Entry, text, directive, Scanned, leave, scan, scan_from, flushed, Parsed,
  pattern_loop, is_known, pattern_error,
}
use phase.Log.Scanning.{at_drop, Follows, scan_simple, scan_formatted}

-- A text; `%c`; and `%c{f}`.
pub data Piece : Type 0 where
  literal : List ℕ → Piece
  simple : ℕ → Piece
  formatted : ℕ → List ℕ → Piece

abbrev pub printed : List Piece → List ℕ
printed [] = []
printed (literal t ∷ pieces) = t ++ printed pieces
printed (simple c ∷ pieces) = 37 ∷ c ∷ printed pieces
printed (formatted c f ∷ pieces) = 37 ∷ c ∷ 123 ∷ (f ++ 125 ∷ printed pieces)

-- Texts hold no `%` and formats no `}`, letters are known, and a letter without a format is followed by
-- a byte that ends its name, or by nothing.
abbrev pub Printable : List Piece → Type 0
Printable [] = Unit
Printable (literal t ∷ pieces) = All (λ c. (c == 37) ≡ false) t × Printable pieces
Printable (simple c ∷ pieces) = ((is_known c ≡ true) × Follows (printed pieces)) × Printable pieces
Printable (formatted c f ∷ pieces) =
    ((is_known c ≡ true) × All (λ d. (d == 125) ≡ false) f) × Printable pieces

-- Texts that follow one another are one entry.
abbrev pub entries : List Entry → List ℕ → List Piece → List Entry
entries vec nstr [] = flushed vec nstr
entries vec nstr (literal t ∷ pieces) = entries vec (nstr ++ t) pieces
entries vec nstr (simple c ∷ pieces) =
    entries (flushed vec nstr ++ directive (c ∷ []) [] ∷ []) [] pieces
entries vec nstr (formatted c f ∷ pieces) =
    entries (flushed vec nstr ++ directive (c ∷ []) f ∷ []) [] pieces

pub known_alpha : (c : ℕ) → is_known c ≡ true → (isalpha c ≡ true) × ((c == 37) ≡ false)
known_alpha c h = ground (arith, h)

module _ (pattern : List ℕ) where
  literal_round :
      (fuel i c : ℕ) (nstr : List ℕ) (vec : List Entry) (rest : List ℕ)
      → drop i pattern ≡ c ∷ rest
      → (c == 37) ≡ false
      → pattern_loop (suc fuel) pattern i nstr vec false
        ≡ pattern_loop fuel pattern (i + 1) (nstr ++ c ∷ []) vec false
  unfolding pattern_loop
  literal_round fuel i c nstr vec rest e h =
      let (here, inside, behind) = at_drop pattern i c rest e in
      rw (inside, ap (λ z. z == 37) here ∙ h, pattern_loop)
        (ap (λ z. pattern_loop fuel pattern (i + 1) (nstr ++ z ∷ []) vec false) here)

  pub literal_lem :
      (t : List ℕ) (fuel i : ℕ) (nstr : List ℕ) (vec : List Entry) (rest : List ℕ)
      → drop i pattern ≡ t ++ rest
      → All (λ c. (c == 37) ≡ false) t
      → pattern_loop (length t + fuel) pattern i nstr vec false
        ≡ pattern_loop fuel pattern (i + length t) (nstr ++ t) vec false
  literal_lem [] fuel i nstr vec rest e a =
      ap (λ k. pattern_loop k pattern i nstr vec false)
        (let none_left : 0 + fuel ≡ fuel = omega arith in none_left)
      ∙ ap (λ k. pattern_loop fuel pattern k nstr vec false)
          (let same : i ≡ i + 0 = omega arith in same)
      ∙ ap (λ z. pattern_loop fuel pattern (i + 0) z vec false) (sym (append-nil nstr))
  literal_lem (c ∷ t) fuel i nstr vec rest e (h, a) =
      ap (λ k. pattern_loop k pattern i nstr vec false)
        (let one_more : suc (length t) + fuel ≡ suc (length t + fuel) = omega arith in one_more)
      ∙ literal_round (length t + fuel) i c nstr vec (t ++ rest) e h
      ∙ literal_lem t fuel (i + 1) (nstr ++ c ∷ []) vec rest (at_drop pattern i c (t ++ rest) e).2 a
      ∙ ap (λ k. pattern_loop fuel pattern k (nstr ++ c ∷ [] ++ t) vec false)
          (let same : i + 1 + length t ≡ i + suc (length t) = omega arith in same)
      ∙ ap (λ z. pattern_loop fuel pattern (i + suc (length t)) z vec false)
          (append_assoc nstr (c ∷ []) t)

  -- A round of the loop, by its three tests and what the inner loop finds.
  abbrev round : ℕ → ℕ → List ℕ → List Entry → Bool → Bool → Bool → Option Scanned → Option Parsed
  round fuel i nstr vec over plain doubled o =
      if over
      then some (flushed vec nstr, false)
      else if plain
      then pattern_loop fuel pattern (i + 1) (nstr ++ byte_at pattern i ∷ []) vec false
      else if doubled
      then pattern_loop fuel pattern (i + 1) (nstr ++ 37 ∷ []) vec false
      else elim o [
        | none ↦ none
        | some q ↦
            if not q.in_format
            then pattern_loop fuel pattern q.at [] (flushed vec nstr ++ directive q.str q.fmt ∷ [])
                false
            else pattern_loop fuel pattern (i + 1) nstr (vec ++ text pattern_error ∷ []) true
      ]

  directive_round :
      (fuel i c : ℕ) (nstr : List ℕ) (vec : List Entry) (rest str fmt : List ℕ) (n : ℕ)
      → drop i pattern ≡ 37 ∷ c ∷ rest
      → (c == 37) ≡ false
      → scan_from pattern i ≡ some (leave n false str fmt)
      → pattern_loop (suc fuel) pattern i nstr vec false
        ≡ pattern_loop fuel pattern n [] (flushed vec nstr ++ directive str fmt ∷ []) false
  unfolding pattern_loop scan_from
  directive_round fuel i c nstr vec rest str fmt n e h r =
      let (here, inside, behind) = at_drop pattern i 37 (c ∷ rest) e in
      let (next, within, more) = at_drop pattern (i + 1) c rest behind in
      let shown : Bool → Bool → Bool → Option Scanned → Option Parsed = round fuel i nstr vec in
      let last : (ltb (i + 1) (length pattern) && byte_at pattern (i + 1) == 37) ≡ false =
        ap (λ z. ltb (i + 1) (length pattern) && z) (ap (λ z. z == 37) next ∙ h)
        ∙ ap (λ z. z && false) within in
      ap
        (λ a.
          shown (not a) (not (byte_at pattern i == 37))
            (ltb (i + 1) (length pattern) && byte_at pattern (i + 1) == 37) (scan_from pattern i))
        inside
      ∙ ap
          (λ z.
            shown false (not (z == 37))
              (ltb (i + 1) (length pattern) && byte_at pattern (i + 1) == 37) (scan_from pattern i))
          here
      ∙ ap (λ b. shown false false b (scan_from pattern i)) last
      ∙ ap (shown false false false) r

  -- A letter without a format, and one with.
  pub simple_round :
      (fuel i c : ℕ) (nstr : List ℕ) (vec : List Entry) (rest : List ℕ)
      → drop i pattern ≡ 37 ∷ c ∷ rest
      → is_known c ≡ true
      → Follows rest
      → (pattern_loop (suc fuel) pattern i nstr vec false
          ≡ pattern_loop fuel pattern
              (i + 1 + 1)
              []
              (flushed vec nstr ++ directive (c ∷ []) [] ∷ [])
              false)
        × (drop (i + 1 + 1) pattern ≡ rest)
  unfolding scan_from
  simple_round fuel i c nstr vec rest e k f =
      let (here, inside, behind) = at_drop pattern i 37 (c ∷ rest) e in
      let two : length pattern ≡ suc (length pattern - 1) = ground (arith, inside) in
      let scanned : scan_from pattern i ≡ some (leave (i + 1 + 1) false (c ∷ []) []) =
        ap (λ n. scan (suc n) pattern i (i + 1) false 0 [] []) two
        ∙ scan_simple pattern i c rest (length pattern - 1) behind (known_alpha c k).0 f in
      (
        directive_round fuel i c nstr vec rest (c ∷ []) [] (i + 1 + 1) e (known_alpha c k).1
            scanned,
        (at_drop pattern (i + 1) c rest behind).2,
      )

  pub formatted_round :
      (fuel i c : ℕ) (f nstr : List ℕ) (vec : List Entry) (rest : List ℕ)
      → drop i pattern ≡ 37 ∷ c ∷ 123 ∷ (f ++ 125 ∷ rest)
      → is_known c ≡ true
      → All (λ d. (d == 125) ≡ false) f
      → (pattern_loop (suc fuel) pattern i nstr vec false
          ≡ pattern_loop fuel pattern
              (i + 1 + 1 + 1 + length f + 1)
              []
              (flushed vec nstr ++ directive (c ∷ []) f ∷ [])
              false)
        × (drop (i + 1 + 1 + 1 + length f + 1) pattern ≡ rest)
  unfolding scan_from
  formatted_round fuel i c f nstr vec rest e k a =
      let (here, inside, behind) = at_drop pattern i 37 _ e in
      let after_c : drop (i + 1 + 1) pattern ≡ 123 ∷ (f ++ 125 ∷ rest) =
        (at_drop pattern (i + 1) c _ behind).2 in
      let after_brace : drop (i + 1 + 1 + 1) pattern ≡ f ++ 125 ∷ rest =
        (at_drop pattern (i + 1 + 1) 123 _ after_c).2 in
      let two : length pattern ≡ suc (length pattern - 1) = ground (arith, inside) in
      let room : length f < length pattern - 1 =
        omega (arith, ap length e, length-drop i pattern, length-append f (125 ∷ rest)) in
      let scanned : scan_from pattern i
          ≡ some (leave (i + 1 + 1 + 1 + length f + 1) false (c ∷ []) f) =
        ap (λ n. scan (suc n) pattern i (i + 1) false 0 [] []) two
        ∙ scan_formatted pattern i c f rest (length pattern - 1) behind (known_alpha c k).0 a
            room in
      let closing : drop (i + 1 + 1 + 1 + length f) pattern ≡ 125 ∷ rest =
        sym (drop-drop (length f) (i + 1 + 1 + 1) pattern)
        ∙ ap (drop (length f)) after_brace
        ∙ drop_front f (125 ∷ rest) in
      (
        directive_round fuel i c nstr vec _ (c ∷ []) f _ e (known_alpha c k).1 scanned,
        (at_drop pattern (i + 1 + 1 + 1 + length f) 125 rest closing).2,
      )
