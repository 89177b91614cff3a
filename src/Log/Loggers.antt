-- ===== src/Log/Loggers.antt =====
-- Logger, LogAppender and LoggerManager of src/log/Logger.cc and src/log/LoggerManager.cc. Loggers and
-- appenders are shared and stand at addresses; each mutex makes its operation one step.
use phase.Base.{
  ℕ, zero, suc, Bool, true, false, ◌&&◌, Option, none, some, List, [], ◌∷◌, ◌++◌, leb, ◌==◌,
  if◌then◌else◌,
}
use phase.Log.Pattern.{FormatItem, init_format}

pub record LogFormatter : Type 0 where
  pub items : List FormatItem
  pub error : Bool

-- A level is its number: 0 for UNKNOW, and 1 to 5 for DEBUG to FATAL. `formatter` is `none` for a null
-- pointer.
pub record LogAppender : Type 0 where
  pub level : ℕ
  pub has_formatter : Bool
  pub formatter : Option LogFormatter

pub record Logger : Type 0 where
  pub name : List ℕ
  pub level : ℕ
  pub appenders : List ℕ
  pub formatter : Option LogFormatter
  pub root : Option ℕ

abbrev pub Appenders : Type 0
Appenders = ℕ → LogAppender

abbrev pub put {ℓ} : {A : Type ℓ} → (ℕ → A) → ℕ → A → ℕ → A
put h p t q = if p == q then t else h q

abbrev pub is_set : Option LogFormatter → Bool
is_set none = false
is_set (some f) = true

-- LogAppender::setFormatter.
abbrev pub own_formatter : Appenders → ℕ → Option LogFormatter → Appenders
own_formatter h a val = put h a (record (h a) { formatter = val; has_formatter = is_set val })

-- The loop of Logger::setFormatter.
abbrev pub pass_on : Appenders → List ℕ → Option LogFormatter → Appenders
pass_on h [] val = h
pass_on h (i ∷ rest) val =
    pass_on (if (h i).has_formatter then h else put h i (record (h i) { formatter = val })) rest val

unfoldable pub set_formatter : Appenders → Logger → Option LogFormatter → Appenders × Logger
set_formatter h m val = (pass_on h m.appenders val, record m { formatter = val })

unfoldable pub new_formatter : List ℕ → Option LogFormatter
new_formatter pattern = elim (init_format pattern) [
  | none ↦ none
  | some (items, error) ↦ some (record { items = items; error = error })
]

-- Logger::setFormatter of a pattern.
unfoldable pub set_pattern : Appenders → Logger → List ℕ → Option (Appenders × Logger)
unfolding set_formatter new_formatter
set_pattern h m val = elim (new_formatter val) [
  | none ↦ none
  | some new_val ↦ some (if new_val.error then (h, m) else set_formatter h m (some new_val))
]

unfoldable pub add_appender : Appenders → Logger → ℕ → Appenders × Logger
add_appender h m a =
    let h' : Appenders =
      if is_set (h a).formatter then h else put h a (record (h a) { formatter = m.formatter }) in
    (h', record m { appenders = m.appenders ++ a ∷ [] })

abbrev pub erase_first : ℕ → List ℕ → List ℕ
erase_first a [] = []
erase_first a (b ∷ rest) = if b == a then rest else b ∷ erase_first a rest

unfoldable pub del_appender : Logger → ℕ → Logger
del_appender m a = record m { appenders = erase_first a m.appenders }

unfoldable pub clear_appenders : Logger → Logger
clear_appenders m = record m { appenders = [] }

-- An event that an appender writes, with the formatter it uses.
abbrev pub Written : Type 0
Written = ℕ × LogFormatter

-- What the loggers write, or a use of a null formatter, which is undefined.
pub data Logged : Type 0 where
  wrote : List Written → Logged
  null_formatter : Logged

abbrev pub then_wrote : Written → Logged → Logged
then_wrote w (wrote ws) = wrote (w ∷ ws)
then_wrote w null_formatter = null_formatter

-- The appenders' `log`, one after the other.
abbrev pub written : Appenders → List ℕ → ℕ → Logged
written h [] level = wrote []
written h (i ∷ rest) level =
    let others = written h rest level in
    if leb (h i).level level
    then elim (h i).formatter [ none ↦ null_formatter | some f ↦ then_wrote (i, f) others ]
    else others

-- Logger::log of the logger at `l`; `none`, when the rounds are over.
unfoldable pub log : ℕ → (ℕ → Logger) → Appenders → ℕ → ℕ → Option Logged
log zero loggers h l level = none
log (suc fuel) loggers h l level = elim (leb (loggers l).level level) [
  | false ↦ some (wrote [])
  | true ↦ elim (loggers l).appenders [
    | [] ↦ elim (loggers l).root [ none ↦ some (wrote []) | some r ↦ log fuel loggers h r level ]
    | a ∷ rest ↦ some (written h (a ∷ rest) level)
  ]
]

-- "%d{%Y-%m-%d %H:%M:%S}%T%t%T%N%T%F%T[%p]%T[%c]%T%f:%l => %m%n".
abbrev pub default_pattern : List ℕ
default_pattern =
    37 ∷ 100 ∷ 123 ∷ 37 ∷ 89 ∷ 45 ∷ 37 ∷ 109 ∷ 45 ∷ 37 ∷ 100 ∷ 32 ∷ 37 ∷ 72 ∷ 58 ∷ 37 ∷ 77 ∷ 58 ∷ 37
    ∷ 83 ∷ 125 ∷ 37 ∷ 84 ∷ 37 ∷ 116 ∷ 37 ∷ 84 ∷ 37 ∷ 78 ∷ 37 ∷ 84 ∷ 37 ∷ 70 ∷ 37 ∷ 84 ∷ 91 ∷ 37
    ∷ 112 ∷ 93 ∷ 37 ∷ 84 ∷ 91 ∷ 37 ∷ 99 ∷ 93 ∷ 37 ∷ 84 ∷ 37 ∷ 102 ∷ 58 ∷ 37 ∷ 108 ∷ 32 ∷ 61 ∷ 62
    ∷ 32 ∷ 37 ∷ 109 ∷ 37 ∷ 110 ∷ []

unfoldable pub new_logger : List ℕ → Logger
unfolding new_formatter
new_logger name = record {
  name = name;
  level = 1;
  appenders = [];
  formatter = new_formatter default_pattern;
  root = none;
}

abbrev pub same_text : List ℕ → List ℕ → Bool
same_text [] [] = true
same_text [] (d ∷ b) = false
same_text (c ∷ a) [] = false
same_text (c ∷ a) (d ∷ b) = (c == d) && same_text a b

abbrev pub find_logger : List ℕ → List (List ℕ × ℕ) → Option ℕ
find_logger name [] = none
find_logger name ((k, l) ∷ names) = if same_text k name then some l else find_logger name names

pub record LoggerManager : Type 0 where
  pub loggers : ℕ → Logger
  pub names : List (List ℕ × ℕ)
  pub root : ℕ

-- LoggerManager::getLogger; a new logger stands at `p`.
unfoldable pub get_logger : LoggerManager → List ℕ → ℕ → LoggerManager × ℕ
unfolding new_logger
get_logger m name p = elim (find_logger name m.names) [
  | some l ↦ (m, l)
  | none ↦ (
    record m {
      loggers = put m.loggers p (record (new_logger name) { root = some m.root });
      names = m.names ++ (name, p) ∷ [];
    },
    p,
  )
]

-- LoggerManager's constructor; the root stands at `r` and its StdoutLogAppender at `a`.
unfoldable pub new_logger_manager : Appenders → (ℕ → Logger) → ℕ → ℕ → Appenders × LoggerManager
unfolding new_logger add_appender
new_logger_manager h loggers r a =
    let fresh : LogAppender = record { level = 1; has_formatter = false; formatter = none } in
    let (h', root) = add_appender (put h a fresh) (new_logger (114 ∷ 111 ∷ 111 ∷ 116 ∷ [])) a in
    (
      h',
      record {
        loggers = put loggers r root;
        names = ((114 ∷ 111 ∷ 111 ∷ 116 ∷ []), r) ∷ [];
        root = r;
      },
    )
