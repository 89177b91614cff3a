-- ===== src/Log/PatternLaws.antt =====
-- LogFormatter::init of src/log/Logger.cc ends on every pattern; a pattern without directives is its own
-- text; and `%%`.
use phase.Base.{
  ℕ, zero, suc, ◌+◌, ◌-◌, ◌≤◌, ◌<◌, ◌≡◌, refl, ap, Bool, true, false, not, ◌&&◌, ◌||◌, Option, some,
  List, [], length, ltb, ◌==◌, arith, if_either,
}
use phase.Log.Pattern.{
  byte_at, substr, Entry, Scanned, leave, ends_name, scan, scan_from, flushed, Parsed, pattern_loop,
  FormatItem, items_of, finished, init_format,
}

-- The inner loop ends, at `n` or later.
abbrev Ends : ℕ → Option Scanned → Type 0
Ends n o = (r : Scanned) × (o ≡ some r) × (n ≤ r.at)

from_next : (n : ℕ) (o : Option Scanned) → Ends (n + 1) o → Ends n o
from_next n o (r, e, h) = (r, e, omega (arith, h))

scan-Ends :
    (fuel : ℕ) (pattern : List ℕ) (i n : ℕ) (in_format : Bool) (begin : ℕ) (str fmt : List ℕ)
    → length pattern - n < fuel
    → Ends n (scan fuel pattern i n in_format begin str fmt)
unfolding scan
scan-Ends zero pattern i n in_format begin str fmt h = absurd (omega arith)
scan-Ends (suc fuel) pattern i n in_format begin str fmt h =
    if_either (Ends n) (not (ltb n (length pattern))) _ _
      (λ _. (leave n in_format str fmt, refl, omega arith))
      (λ inside.
        let less : length pattern - (n + 1) < fuel = ground (arith, inside, h) in
        if_either (Ends n) (not in_format && ends_name (byte_at pattern n)) _ _
          (λ _. (leave n in_format (substr pattern (i + 1) (n - i - 1)) fmt, refl, omega arith))
          (λ _.
            if_either (Ends n) (not in_format && byte_at pattern n == 123) _ _
              (λ _. from_next n _ (scan-Ends fuel pattern i (n + 1) true n _ fmt less))
              (λ _.
                if_either (Ends n) (in_format && byte_at pattern n == 125) _ _
                  (λ _. (
                    leave (n + 1) false str (substr pattern (begin + 1) (n - begin - 1)),
                    refl,
                    omega arith,
                  ))
                  (λ _.
                    from_next n _ (scan-Ends fuel pattern i (n + 1) in_format begin _ fmt less)))))

scan_from-Ends : (pattern : List ℕ) (i : ℕ) → Ends (i + 1) (scan_from pattern i)
unfolding scan_from
scan_from-Ends pattern i =
    scan-Ends (suc (length pattern)) pattern i (i + 1) false 0 [] [] (omega arith)

abbrev Returns : Option Parsed → Type 0
Returns o = (r : Parsed) × (o ≡ some r)

pattern_loop-Returns :
    (fuel : ℕ) (pattern : List ℕ) (i : ℕ) (nstr : List ℕ) (vec : List Entry) (error : Bool)
    → length pattern - i < fuel
    → Returns (pattern_loop fuel pattern i nstr vec error)
unfolding pattern_loop
pattern_loop-Returns zero pattern i nstr vec error h = absurd (omega arith)
pattern_loop-Returns (suc fuel) pattern i nstr vec error h =
    if_either Returns (not (ltb i (length pattern))) _ _ (λ _. ((flushed vec nstr, error), refl))
      (λ inside.
        let less : length pattern - (i + 1) < fuel = ground (arith, inside, h) in
        if_either Returns (not (byte_at pattern i == 37)) _ _
          (λ _. pattern_loop-Returns fuel pattern (i + 1) _ vec error less)
          (λ _.
            if_either Returns (ltb (i + 1) (length pattern) && byte_at pattern (i + 1) == 37) _ _
              (λ _. pattern_loop-Returns fuel pattern (i + 1) _ vec error less)
              (λ _.
                let (r, e, later) = scan_from-Ends pattern i in
                rw e (
                  if_either Returns (not r.in_format) _ _
                    (λ _.
                      pattern_loop-Returns fuel pattern r.at [] _ error
                        (ground (arith, inside, h, later)))
                    (λ _. pattern_loop-Returns fuel pattern (i + 1) nstr _ true less)))))

-- Every pattern is read to its end, whatever it holds.
pub init_format-total :
    (pattern : List ℕ)
    → (items : List FormatItem) × (error : Bool) × (init_format pattern ≡ some (items, error))
unfolding init_format
init_format-total pattern =
    let (r, e) = pattern_loop-Returns (suc (length pattern)) pattern 0 [] [] false (omega arith) in
    ((items_of r.0).0, r.1 || (items_of r.0).1, ap finished e)
