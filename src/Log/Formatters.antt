-- ===== src/Log/Formatters.antt =====
-- Logger::setFormatter of src/log/Logger.cc: which appenders print with the new formatter.
use phase.Base.{
  ℕ, ◌≡◌, refl, ap, ◌∙◌, Bool, true, false, not, ◌&&◌, ◌||◌, Option, some, List, [], ◌∷◌, ◌==◌,
  if◌then◌else◌, arith, Bool-cases, subst, ◌⊎◌, inl, inr, ==_iff,
}
use phase.Log.Printing.{Piece, printed, Printable}
use phase.Log.RoundTrip.{items, init_format-printed}
use phase.Log.Loggers.{
  LogFormatter, LogAppender, Logger, Appenders, put, pass_on, set_formatter, new_formatter,
  set_pattern,
}

abbrev pub holds : List ℕ → ℕ → Bool
holds [] a = false
holds (b ∷ apps) a = (b == a) || holds apps a

-- The appender at `a` after a formatter is handed to those in `apps`.
abbrev pub handed : Appenders → List ℕ → Option LogFormatter → ℕ → LogAppender
handed h apps val a =
    if holds apps a && not (h a).has_formatter then record (h a) { formatter = val } else h a

pass_on-handed :
    (h : Appenders) (apps : List ℕ) (val : Option LogFormatter) (a : ℕ)
    → pass_on h apps val a ≡ handed h apps val a
pass_on-handed h [] val a = refl
pass_on-handed h (b ∷ apps) val a = elim (Bool-cases (h b).has_formatter) [
  | inl own ↦ rw own (pass_on-handed h apps val a ∙ kept own (Bool-cases (b == a)))
  | inr none_own ↦
      ap (λ z. pass_on (if z then h else put h b (record (h b) { formatter = val })) apps val a)
        none_own
      ∙ pass_on-handed (put h b (record (h b) { formatter = val })) apps val a
      ∙ changed none_own (Bool-cases (b == a))
]
  where
    self : (b == b) ≡ true
    self = ground arith

    at_own :
        (h b).has_formatter ≡ true
        → (holds apps b ≡ true) ⊎ (holds apps b ≡ false)
        → handed h apps val b ≡ handed h (b ∷ apps) val b
    at_own own (inl e) = rw (e, self, own) refl
    at_own own (inr e) = rw (e, self, own) refl

    at_none :
        (h b).has_formatter ≡ false
        → (holds apps b ≡ true) ⊎ (holds apps b ≡ false)
        → handed (put h b (record (h b) { formatter = val })) apps val b ≡ handed h (b ∷ apps) val b
    at_none none_own (inl e) = rw (e, self, none_own) refl
    at_none none_own (inr e) = rw (e, self, none_own) refl

    kept :
        (h b).has_formatter ≡ true
        → ((b == a) ≡ true) ⊎ ((b == a) ≡ false)
        → handed h apps val a ≡ handed h (b ∷ apps) val a
    kept own (inl e) =
        subst (λ z. handed h apps val z ≡ handed h (b ∷ apps) val z) ((==_iff b a).0 e)
          (at_own own (Bool-cases (holds apps b)))
    kept own (inr e) = rw e refl

    changed :
        (h b).has_formatter ≡ false
        → ((b == a) ≡ true) ⊎ ((b == a) ≡ false)
        → handed (put h b (record (h b) { formatter = val })) apps val a ≡ handed h (b ∷ apps) val a
    changed none_own (inl e) =
        subst
          (λ z.
            handed (put h b (record (h b) { formatter = val })) apps val z
            ≡ handed h (b ∷ apps) val z)
          ((==_iff b a).0 e) (at_none none_own (Bool-cases (holds apps b)))
    changed none_own (inr e) = rw e refl

-- Logger::setFormatter of a printed pattern returns; the logger keeps the pattern's items, its appenders
-- without a formatter of their own print with them, and every other appender is unchanged.
pub set_pattern-printed :
    (h : Appenders) (m : Logger) (pieces : List Piece)
    → Printable pieces
    → (r : Appenders × Logger) × (set_pattern h m (printed pieces) ≡ some r)
      × (r.1 ≡ record m { formatter = some (record { items = items [] pieces; error = false }) })
      × ((a : ℕ)
          → r.0 a
            ≡ handed h m.appenders (some (record { items = items [] pieces; error = false })) a)
unfolding set_pattern new_formatter set_formatter
set_pattern-printed h m pieces p =
    let f : LogFormatter = record { items = items [] pieces; error = false } in
    (
      set_formatter h m (some f),
      rw (init_format-printed pieces p, set_pattern, new_formatter) refl,
      refl,
      λ a. pass_on-handed h m.appenders (some f) a,
    )
