-- ===== src/Log/RoundTrip.antt =====
-- A printed pattern is read back by LogFormatter::init of src/log/Logger.cc.
use phase.Base.{
  ℕ, zero, suc, ◌+◌, ◌-◌, ◌<◌, ◌≡◌, refl, ap, sym, ◌∙◌, Bool, true, false, ◌||◌, some, List, [],
  ◌∷◌, ◌++◌, length, drop, arith, length-append, drop-drop, drop_front, append_assoc, append-nil,
  subst,
}
use phase.Log.Pattern.{
  Entry, text, directive, flushed, pattern_loop, FormatItem, string_item, known_item, item_of,
  items_of, is_known, finished, init_format,
}
use phase.Log.Scanning.{end_drop}
use phase.Log.Printing.{
  Piece, literal, simple, formatted, printed, Printable, entries, literal_lem, simple_round,
  formatted_round,
}

pattern_loop-printed :
    (pattern : List ℕ) (pieces : List Piece) (fuel i : ℕ) (nstr : List ℕ) (vec : List Entry)
    → drop i pattern ≡ printed pieces
    → length (printed pieces) < fuel
    → Printable pieces
    → pattern_loop fuel pattern i nstr vec false ≡ some (entries vec nstr pieces, false)
unfolding pattern_loop
pattern_loop-printed pattern pieces zero i nstr vec e h p = absurd (omega arith)
pattern_loop-printed pattern [] (suc fuel) i nstr vec e h p =
    rw (end_drop pattern i e, pattern_loop) refl
pattern_loop-printed pattern (literal t ∷ pieces) (suc fuel) i nstr vec e h (a, p) =
    let size : length (t ++ printed pieces) ≡ length t + length (printed pieces) =
      length-append t (printed pieces) in
    let left : ℕ = suc fuel - length t in
    ap (λ k. pattern_loop k pattern i nstr vec false)
      (let all : suc fuel ≡ length t + left = omega (arith, h, size) in all)
    ∙ literal_lem pattern t left i nstr vec (printed pieces) e a
    ∙ pattern_loop-printed pattern pieces left (i + length t) (nstr ++ t) vec
        (sym (drop-drop (length t) i pattern)
          ∙ ap (drop (length t)) e
          ∙ drop_front t (printed pieces))
        (omega (arith, h, size)) p
pattern_loop-printed pattern (simple c ∷ pieces) (suc fuel) i nstr vec e h ((k, f), p) =
    let (step, behind) = simple_round pattern fuel i c nstr vec (printed pieces) e k f in
    step
    ∙ pattern_loop-printed pattern pieces fuel (i + 1 + 1) []
        (flushed vec nstr ++ directive (c ∷ []) [] ∷ []) behind (omega (arith, h)) p
pattern_loop-printed pattern (formatted c f ∷ pieces) (suc fuel) i nstr vec e h ((k, a), p) =
    let (step, behind) = formatted_round pattern fuel i c f nstr vec (printed pieces) e k a in
    step
    ∙ pattern_loop-printed pattern pieces fuel (i + 1 + 1 + 1 + length f + 1) []
        (flushed vec nstr ++ directive (c ∷ []) f ∷ []) behind
        (omega (arith, h, length-append f (125 ∷ printed pieces))) p

-- A text that is not empty is one item.
abbrev pub shown : List ℕ → List FormatItem
shown [] = []
shown (c ∷ nstr) = string_item (c ∷ nstr) ∷ []

-- The items: one for the texts that follow one another, and one for each directive.
abbrev pub items : List ℕ → List Piece → List FormatItem
items nstr [] = shown nstr
items nstr (literal t ∷ pieces) = items (nstr ++ t) pieces
items nstr (simple c ∷ pieces) = shown nstr ++ known_item c [] ∷ items [] pieces
items nstr (formatted c f ∷ pieces) = shown nstr ++ known_item c f ∷ items [] pieces

-- Entries that are all known give these items.
abbrev Gives : List Entry → List FormatItem → Type 0
Gives vec its = ((items_of vec).0 ≡ its) × ((items_of vec).1 ≡ false)

Gives-append :
    (a b : List Entry) (x y : List FormatItem) → Gives a x → Gives b y → Gives (a ++ b) (x ++ y)
Gives-append [] b x y (e, u) (f, w) = (f ∙ ap (λ z. z ++ y) e, w)
Gives-append (v ∷ a) b x y (e, u) (f, w) =
    let (unknown, others) = neither (item_of v).1 (items_of a).1 u in
    let (more, none_unknown) = Gives-append a b (items_of a).0 y (refl, others) (f, w) in
    (
      ap (λ z. (item_of v).0 ∷ z) more ∙ ap (λ z. z ++ y) e,
      ap (λ z. (item_of v).1 || z) none_unknown ∙ ap (λ z. z || false) unknown,
    )
  where
    neither : (b c : Bool) → (b || c) ≡ false → (b ≡ false) × (c ≡ false)
    neither true c h = cc
    neither false c h = (refl, h)

flushed-Gives :
    (vec : List Entry) (nstr : List ℕ) (its : List FormatItem)
    → Gives vec its
    → Gives (flushed vec nstr) (its ++ shown nstr)
unfolding item_of
flushed-Gives vec [] its g = (g.0 ∙ sym (append-nil its), g.1)
flushed-Gives vec (c ∷ nstr) its g =
    Gives-append vec (text (c ∷ nstr) ∷ []) its (string_item (c ∷ nstr) ∷ []) g (refl, refl)

known_given :
    (c : ℕ) (f : List ℕ)
    → is_known c ≡ true
    → Gives (directive (c ∷ []) f ∷ []) (known_item c f ∷ [])
unfolding item_of
known_given c f k = (rw (k, item_of) refl, rw (k, item_of) refl)

regrouped :
    (a b : List FormatItem) (x : FormatItem) (c : List FormatItem)
    → a ++ b ++ x ∷ [] ++ c ≡ a ++ (b ++ x ∷ c)
regrouped a b x c = append_assoc (a ++ b) (x ∷ []) c ∙ append_assoc a b (x ∷ c)

entries-Gives :
    (pieces : List Piece) (nstr : List ℕ) (vec : List Entry) (its : List FormatItem)
    → Gives vec its
    → Printable pieces
    → Gives (entries vec nstr pieces) (its ++ items nstr pieces)
entries-Gives [] nstr vec its g p = flushed-Gives vec nstr its g
entries-Gives (literal t ∷ pieces) nstr vec its g (a, p) =
    entries-Gives pieces (nstr ++ t) vec its g p
entries-Gives (simple c ∷ pieces) nstr vec its g ((k, f), p) =
    subst (Gives (entries vec nstr (simple c ∷ pieces)))
      (regrouped its (shown nstr) (known_item c []) (items [] pieces))
      (entries-Gives pieces [] (flushed vec nstr ++ directive (c ∷ []) [] ∷ [])
        (its ++ shown nstr ++ known_item c [] ∷ [])
        (Gives-append (flushed vec nstr) _ (its ++ shown nstr) (known_item c [] ∷ [])
          (flushed-Gives vec nstr its g) (known_given c [] k))
        p)
entries-Gives (formatted c f ∷ pieces) nstr vec its g ((k, a), p) =
    subst (Gives (entries vec nstr (formatted c f ∷ pieces)))
      (regrouped its (shown nstr) (known_item c f) (items [] pieces))
      (entries-Gives pieces [] (flushed vec nstr ++ directive (c ∷ []) f ∷ [])
        (its ++ shown nstr ++ known_item c f ∷ [])
        (Gives-append (flushed vec nstr) _ (its ++ shown nstr) (known_item c f ∷ [])
          (flushed-Gives vec nstr its g) (known_given c f k))
        p)

-- A pattern of texts and directives is read back: the items are the texts, those that follow one another
-- as one, and the directives with their formats, and no error is noted.
pub init_format-printed :
    (pieces : List Piece)
    → Printable pieces
    → init_format (printed pieces) ≡ some (items [] pieces, false)
unfolding init_format
init_format-printed pieces p =
    let (all, known) = entries-Gives pieces [] [] [] (refl, refl) p in
    ap finished (
      pattern_loop-printed (printed pieces) pieces (suc (length (printed pieces))) 0 [] [] refl
        (omega arith) p)
    ∙ ap (λ z. some (z, (items_of (entries [] [] pieces)).1)) all
    ∙ ap (λ z. some (items [] pieces, z)) known
