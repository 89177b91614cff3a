-- ===== src/Log/Scanning.antt =====
-- The rounds of the inner loop of LogFormatter::init in src/log/Logger.cc, on the directives that it
-- is meant for.
use phase.Base.{
  ℕ, zero, suc, ◌+◌, ◌-◌, ◌<◌, ◌≡◌, refl, ap, sym, ◌∙◌, Bool, true, false, not, ◌&&◌, some, List,
  [], ◌∷◌, ◌++◌, length, take, drop, ltb, ◌==◌, if◌then◌else◌, arith, All, Bool-cases, inl, inr,
  length-drop, drop-drop, take_front,
}
use phase.Log.Pattern.{byte_at, substr, is_empty, isalpha, leave, ends_name, scan}

byte_at-drop :
    (pattern : List ℕ) (i c : ℕ) (rest : List ℕ) → drop i pattern ≡ c ∷ rest → byte_at pattern i ≡ c
byte_at-drop [] zero c rest e = absurd (omega (arith, ap length e))
byte_at-drop [] (suc i) c rest e = absurd (omega (arith, ap length e))
byte_at-drop (x ∷ pattern) zero c rest e = ap (λ z. byte_at z 0) e
byte_at-drop (x ∷ pattern) (suc i) c rest e = byte_at-drop pattern i c rest e

-- The byte at `i`, and what is behind it.
pub at_drop :
    (pattern : List ℕ) (i c : ℕ) (rest : List ℕ)
    → drop i pattern ≡ c ∷ rest
    → (byte_at pattern i ≡ c) × (ltb i (length pattern) ≡ true) × (drop (i + 1) pattern ≡ rest)
at_drop pattern i c rest e = (
  byte_at-drop pattern i c rest e,
  ground (arith, length-drop i pattern, ap length e),
  sym (drop-drop 1 i pattern) ∙ ap (drop 1) e,
)

pub end_drop : (pattern : List ℕ) (i : ℕ) → drop i pattern ≡ [] → ltb i (length pattern) ≡ false
end_drop pattern i e = ground (arith, length-drop i pattern, ap length e)

alpha_lem : (c : ℕ) → isalpha c ≡ true → (ends_name c ≡ false) × ((c == 123) ≡ false)
alpha_lem c h = (ap (λ b. not b && (not (c == 123) && not (c == 125))) h, ground (arith, h))

module _ (pattern : List ℕ) (i : ℕ) where
  scan_end :
      (fuel n begin : ℕ) (in_format : Bool) (str fmt : List ℕ)
      → ltb n (length pattern) ≡ false
      → scan (suc fuel) pattern i n in_format begin str fmt ≡ some (leave n in_format str fmt)
  unfolding scan
  scan_end fuel n begin in_format str fmt h = rw (h, scan) refl

  scan_stop :
      (fuel n begin : ℕ) (str fmt : List ℕ)
      → ltb n (length pattern) ≡ true
      → ends_name (byte_at pattern n) ≡ true
      → scan (suc fuel) pattern i n false begin str fmt
        ≡ some (leave n false (substr pattern (i + 1) (n - i - 1)) fmt)
  unfolding scan
  scan_stop fuel n begin str fmt h k = rw (h, k, scan) refl

  scan_name :
      (fuel n begin : ℕ) (str fmt : List ℕ)
      → ltb n (length pattern) ≡ true
      → isalpha (byte_at pattern n) ≡ true
      → scan (suc fuel) pattern i n false begin str fmt
        ≡ scan fuel pattern i
            (n + 1)
            false
            begin
            (if (n + 1 == length pattern) && is_empty str then drop (i + 1) pattern else str)
            fmt
  unfolding scan
  scan_name fuel n begin str fmt h k =
      rw (h, (alpha_lem (byte_at pattern n) k).0, (alpha_lem (byte_at pattern n) k).1, scan) refl

  scan_open :
      (fuel n begin : ℕ) (str fmt : List ℕ)
      → ltb n (length pattern) ≡ true
      → byte_at pattern n ≡ 123
      → scan (suc fuel) pattern i n false begin str fmt
        ≡ scan fuel pattern i (n + 1) true n (substr pattern (i + 1) (n - i - 1)) fmt
  unfolding scan
  scan_open fuel n begin str fmt h k = rw (h, k, scan) refl

  scan_inside :
      (fuel n begin c : ℕ) (str fmt : List ℕ)
      → ltb n (length pattern) ≡ true
      → (byte_at pattern n == 125) ≡ false
      → scan (suc fuel) pattern i n true begin (c ∷ str) fmt
        ≡ scan fuel pattern i (n + 1) true begin (c ∷ str) fmt
  unfolding scan
  scan_inside fuel n begin c str fmt h k = elim (Bool-cases (n + 1 == length pattern)) [
    | inl e ↦ rw (h, k, e, scan) refl
    | inr e ↦ rw (h, k, e, scan) refl
  ]

  scan_close :
      (fuel n begin : ℕ) (str fmt : List ℕ)
      → ltb n (length pattern) ≡ true
      → byte_at pattern n ≡ 125
      → scan (suc fuel) pattern i n true begin str fmt
        ≡ some (leave (n + 1) false str (substr pattern (begin + 1) (n - begin - 1)))
  unfolding scan
  scan_close fuel n begin str fmt h k = rw (h, k, scan) refl

-- What may follow a directive without a format: the end, or a byte that ends its name.
abbrev pub Follows : List ℕ → Type 0
Follows [] = Unit
Follows (d ∷ rest) = ends_name d ≡ true

one_letter :
    (pattern : List ℕ) (i c : ℕ) (rest : List ℕ)
    → drop (i + 1) pattern ≡ c ∷ rest
    → substr pattern (i + 1) (i + 1 + 1 - i - 1) ≡ c ∷ []
one_letter pattern i c rest e =
    ap (λ k. take k (drop (i + 1) pattern)) (let one : i + 1 + 1 - i - 1 ≡ 1 = omega arith in one)
    ∙ ap (take 1) e

pub scan_simple :
    (pattern : List ℕ) (i c : ℕ) (rest : List ℕ) (fuel : ℕ)
    → drop (i + 1) pattern ≡ c ∷ rest
    → isalpha c ≡ true
    → Follows rest
    → scan (suc (suc fuel)) pattern i (i + 1) false 0 [] []
      ≡ some (leave (i + 1 + 1) false (c ∷ []) [])
scan_simple pattern i c [] fuel e a f =
    let (here, inside, behind) = at_drop pattern (i + 1) c [] e in
    let over : ltb (i + 1 + 1) (length pattern) ≡ false = end_drop pattern (i + 1 + 1) behind in
    let last : (i + 1 + 1 == length pattern) ≡ true = ground (arith, inside, over) in
    scan_name pattern i (suc fuel) (i + 1) 0 [] [] inside (ap isalpha here ∙ a)
    ∙ ap
        (λ z.
          scan (suc fuel) pattern i (i + 1 + 1) false 0
            (if z && true then drop (i + 1) pattern else []) [])
        last
    ∙ ap (λ z. scan (suc fuel) pattern i (i + 1 + 1) false 0 z []) e
    ∙ scan_end pattern i fuel (i + 1 + 1) 0 false (c ∷ []) [] over
scan_simple pattern i c (d ∷ rest) fuel e a f =
    let (here, inside, behind) = at_drop pattern (i + 1) c (d ∷ rest) e in
    let (next, within, more) = at_drop pattern (i + 1 + 1) d rest behind in
    scan_name pattern i (suc fuel) (i + 1) 0 [] [] inside (ap isalpha here ∙ a)
    ∙ scan_stop pattern i fuel (i + 1 + 1) 0 _ [] within (ap ends_name next ∙ f)
    ∙ ap (λ z. some (leave (i + 1 + 1) false z [])) (one_letter pattern i c (d ∷ rest) e)

-- The format, up to its closing brace.
scan_format :
    (pattern : List ℕ) (i begin c n : ℕ) (str f rest : List ℕ) (fuel : ℕ)
    → drop n pattern ≡ f ++ 125 ∷ rest
    → All (λ d. (d == 125) ≡ false) f
    → length f < fuel
    → scan fuel pattern i n true begin (c ∷ str) []
      ≡ some (
          leave
            (n + length f + 1)
            false
            (c ∷ str)
            (substr pattern (begin + 1) (n + length f - begin - 1)))
scan_format pattern i begin c n str f rest zero e a h = absurd (omega arith)
scan_format pattern i begin c n str [] rest (suc fuel) e a h =
    let (here, inside, behind) = at_drop pattern n 125 rest e in
    scan_close pattern i fuel n begin (c ∷ str) [] inside here
    ∙ ap (λ k. some (leave (k + 1) false (c ∷ str) (substr pattern (begin + 1) (k - begin - 1))))
        (let same : n ≡ n + 0 = omega arith in same)
scan_format pattern i begin c n str (d ∷ f) rest (suc fuel) e (a, all) h =
    let (here, inside, behind) = at_drop pattern n d (f ++ 125 ∷ rest) e in
    scan_inside pattern i fuel n begin c str [] inside (ap (λ z. z == 125) here ∙ a)
    ∙ scan_format pattern i begin c (n + 1) str f rest fuel behind all (omega arith)
    ∙ ap (λ k. some (leave (k + 1) false (c ∷ str) (substr pattern (begin + 1) (k - begin - 1))))
        (let same : n + 1 + length f ≡ n + suc (length f) = omega arith in same)

pub scan_formatted :
    (pattern : List ℕ) (i c : ℕ) (f rest : List ℕ) (fuel : ℕ)
    → drop (i + 1) pattern ≡ c ∷ 123 ∷ (f ++ 125 ∷ rest)
    → isalpha c ≡ true
    → All (λ d. (d == 125) ≡ false) f
    → length f < fuel
    → scan (suc (suc fuel)) pattern i (i + 1) false 0 [] []
      ≡ some (leave (i + 1 + 1 + 1 + length f + 1) false (c ∷ []) f)
scan_formatted pattern i c f rest fuel e a all h =
    let (here, inside, behind) = at_drop pattern (i + 1) c _ e in
    let (brace, within, more) = at_drop pattern (i + 1 + 1) 123 _ behind in
    scan_name pattern i (suc fuel) (i + 1) 0 [] [] inside (ap isalpha here ∙ a)
    ∙ scan_open pattern i fuel (i + 1 + 1) 0 _ [] within brace
    ∙ ap (λ z. scan fuel pattern i (i + 1 + 1 + 1) true (i + 1 + 1) z [])
        (one_letter pattern i c _ e)
    ∙ scan_format pattern i (i + 1 + 1) c (i + 1 + 1 + 1) [] f rest fuel more all h
    ∙ ap (λ z. some (leave (i + 1 + 1 + 1 + length f + 1) false (c ∷ []) z))
        (ap (λ k. take k (drop (i + 1 + 1 + 1) pattern))
            (let same : i + 1 + 1 + 1 + length f - (i + 1 + 1) - 1 ≡ length f = omega arith in same)
          ∙ ap (take (length f)) more
          ∙ take_front f (125 ∷ rest))
