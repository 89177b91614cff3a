-- ===== src/Log/Applied.antt =====
-- Calls of the loggers of src/log/Logger.cc return and keep what their manager keeps.
use phase.Base.{
  ℕ, ◌≡◌, refl, subst, true, Option, none, some, List, [], ◌∷◌, ◌==◌, arith, Bool-cases, inl, inr,
}
use phase.Log.PatternLaws.{init_format-total}
use phase.Log.Loggers.{
  Logger, Appenders, set_formatter, new_formatter, set_pattern, add_appender, del_appender,
  clear_appenders, get_logger, new_logger, new_logger_manager,
}
use phase.Log.Calls.{
  Call, get, level_set, formatter_set, pattern_set, appender_added, appender_deleted,
  appenders_cleared, appender_level_set, appender_formatter_set, Logs, stored, apply, apply_all,
}
use phase.Log.Registered.{
  Used, used_after, Fresh, AllFresh, Registered, Named, stored-Named, find_added, get_logger-Named,
}

abbrev pub Applied : List ℕ → Option Logs → Type 0
Applied used o = (s : Logs) × (o ≡ some s) × Named used s.1

pattern_kept :
    (h : Appenders) (logger : Logger) (val : List ℕ)
    → (r : Appenders × Logger) × (set_pattern h logger val ≡ some r)
      × (r.1.name ≡ logger.name)
      × (r.1.root ≡ logger.root)
unfolding set_pattern new_formatter set_formatter
pattern_kept h logger val =
    let (items, error, e) = init_format-total val in
    elim (Bool-cases error) [
      | inl bad ↦ ((h, logger), rw (e, set_pattern, new_formatter, bad) refl, refl, refl)
      | inr good ↦ (
        set_formatter h logger (some (record { items = items; error = error })),
        rw (e, set_pattern, new_formatter, good) refl,
        refl,
        refl,
      )
    ]

apply-Applied :
    (used : List ℕ) (s : Logs) (c : Call)
    → Fresh used c
    → Named used s.1
    → Applied (used_after used c) (apply s c)
unfolding apply set_formatter add_appender del_appender clear_appenders
apply-Applied used (h, m) (get name p) fresh n =
    ((h, (get_logger m name p).0), refl, get_logger-Named used m name p fresh n)
apply-Applied used (h, m) (level_set l val) fresh n = (_, refl, stored-Named used m l _ refl refl n)
apply-Applied used (h, m) (formatter_set l val) fresh n =
    (_, refl, stored-Named used m l _ refl refl n)
apply-Applied used (h, m) (pattern_set l val) fresh n =
    let (r, e, name, root) = pattern_kept h (m.loggers l) val in
    ((r.0, stored m l r.1), rw (e, apply) refl, stored-Named used m l r.1 name root n)
apply-Applied used (h, m) (appender_added l a) fresh n =
    (_, refl, stored-Named used m l _ refl refl n)
apply-Applied used (h, m) (appender_deleted l a) fresh n =
    (_, refl, stored-Named used m l _ refl refl n)
apply-Applied used (h, m) (appenders_cleared l) fresh n =
    (_, refl, stored-Named used m l _ refl refl n)
apply-Applied used (h, m) (appender_level_set a val) fresh n = (_, refl, n)
apply-Applied used (h, m) (appender_formatter_set a val) fresh n = (_, refl, n)

pub apply_all-Applied :
    (used : List ℕ) (s : Logs) (calls : List Call)
    → AllFresh used calls
    → Named used s.1
    → (later : List ℕ) × Applied later (apply_all s calls)
unfolding apply_all
apply_all-Applied used s [] fresh n = (used, (s, refl, n))
apply_all-Applied used s (c ∷ calls) (f, fresh) n =
    let (s', e, n') = apply-Applied used s c f n in
    rw (e, apply_all) (apply_all-Applied (used_after used c) s' calls fresh n')

pub new_logger_manager-Named :
    (h : Appenders) (loggers : ℕ → Logger) (r a : ℕ)
    → Named (r ∷ []) (new_logger_manager h loggers r a).1
unfolding new_logger_manager new_logger add_appender
new_logger_manager-Named h loggers r a =
    let self : (r == r) ≡ true = ground arith in
    let used : Used (r ∷ []) r = λ p n. n.0 in
    (
      rw self refl,
      used,
      λ name l found. elim (find_added [] (114 ∷ 111 ∷ 111 ∷ 116 ∷ []) name r l found) [
        | inl f ↦ let bad : none ≡ some l = f in cc
        | inr (e, q) ↦
            subst (λ z. Registered (new_logger_manager h loggers r a).1 name z × Used (r ∷ []) z) q
              ((rw self e, inl (rw self refl)), used)
      ],
    )
