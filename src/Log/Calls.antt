-- ===== src/Log/Calls.antt =====
-- The calls a program makes of the loggers of src/log/Logger.cc and src/log/LoggerManager.cc.
use phase.Base.{ℕ, Option, none, some, List, [], ◌∷◌}
use phase.Log.Loggers.{
  LogFormatter, Logger, Appenders, put, own_formatter, set_formatter, set_pattern, add_appender,
  del_appender, clear_appenders, LoggerManager, get_logger,
}

-- getLogger; then the calls of the logger at an address; then those of an appender.
pub data Call : Type 0 where
  get : List ℕ → ℕ → Call
  level_set : ℕ → ℕ → Call
  formatter_set : ℕ → Option LogFormatter → Call
  pattern_set : ℕ → List ℕ → Call
  appender_added : ℕ → ℕ → Call
  appender_deleted : ℕ → ℕ → Call
  appenders_cleared : ℕ → Call
  appender_level_set : ℕ → ℕ → Call
  appender_formatter_set : ℕ → Option LogFormatter → Call

abbrev pub Logs : Type 0
Logs = Appenders × LoggerManager

abbrev pub stored : LoggerManager → ℕ → Logger → LoggerManager
stored m l logger = record m { loggers = put m.loggers l logger }

unfoldable pub apply : Logs → Call → Option Logs
unfolding set_formatter add_appender del_appender clear_appenders get_logger set_pattern
apply (h, m) (get name p) = some (h, (get_logger m name p).0)
apply (h, m) (level_set l val) = some (h, stored m l (record (m.loggers l) { level = val }))
apply (h, m) (formatter_set l val) =
    let (h', logger) = set_formatter h (m.loggers l) val in some (h', stored m l logger)
apply (h, m) (pattern_set l val) = elim (set_pattern h (m.loggers l) val) [
  | none ↦ none
  | some r ↦ some (r.0, stored m l r.1)
]
apply (h, m) (appender_added l a) =
    let (h', logger) = add_appender h (m.loggers l) a in some (h', stored m l logger)
apply (h, m) (appender_deleted l a) = some (h, stored m l (del_appender (m.loggers l) a))
apply (h, m) (appenders_cleared l) = some (h, stored m l (clear_appenders (m.loggers l)))
apply (h, m) (appender_level_set a val) = some (put h a (record (h a) { level = val }), m)
apply (h, m) (appender_formatter_set a val) = some (own_formatter h a val, m)

unfoldable pub apply_all : Logs → List Call → Option Logs
apply_all s [] = some s
apply_all s (c ∷ calls) = elim (apply s c) [ none ↦ none | some s' ↦ apply_all s' calls ]
