-- ===== src/Log/CallLaws.antt =====
-- What holds of the loggers of src/log/Logger.cc and src/log/LoggerManager.cc whatever is called.
use phase.Base.{
  ℕ, ◌≡◌, true, false, none, some, List, [], ◌∷◌, leb, if◌then◌else◌, ◌⊎◌, Bool, not, ◌||◌,
}
use phase.Log.Loggers.{Appenders, log, Written, Logged, wrote, null_formatter, is_set}
use phase.Log.Calls.{Logs}

-- The appenders that let a level pass, and whether one of them has no formatter.
abbrev pub passing : Appenders → List ℕ → ℕ → List ℕ
passing h [] level = []
passing h (i ∷ apps) level =
    if leb (h i).level level then i ∷ passing h apps level else passing h apps level

abbrev pub some_null : Appenders → List ℕ → Bool
some_null h [] = false
some_null h (i ∷ apps) = not (is_set (h i).formatter) || some_null h apps

-- The writes of appenders with formatters.
abbrev pub writes : Appenders → List ℕ → List Written
writes h [] = []
writes h (i ∷ apps) = elim (h i).formatter [
  | none ↦ writes h apps
  | some f ↦ (i, f) ∷ writes h apps
]

-- What a logger's own appenders do: each that lets the level pass writes with its formatter, in order,
-- unless one of them has none.
abbrev pub own : Logs → ℕ → ℕ → Logged
own (h, m) l level =
    let apps = passing h (m.loggers l).appenders level in
    if leb (m.loggers l).level level
    then (if some_null h apps then null_formatter else wrote (writes h apps))
    else wrote []

-- A logger's appenders write, or, where it has none and lets the level pass, the root's.
abbrev pub Answers : Logs → ℕ → ℕ → Type 0
Answers s l level =
    (log 2 s.1.loggers s.0 l level ≡ some (own s l level))
    ⊎ (((s.1.loggers l).appenders ≡ [])
        × (leb (s.1.loggers l).level level ≡ true)
        × (log 2 s.1.loggers s.0 l level ≡ some (own s s.1.root level)))
