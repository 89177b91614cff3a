-- ===== src/Log/Tests.antt =====
-- Tests of LogFormatter::init of src/log/Logger.cc, and its theorems on patterns.
use phase.Base.{zero, suc, ℕ, none, ◌≡◌, refl, true, false, some, List, [], ◌∷◌}
use phase.Log.Pattern.{
  scan, scan_from, pattern_loop, item_of, init_format, string_item, known_item, error_format,
  pattern_error,
}
use phase.Log.Printing.{printed, Piece, literal, simple, formatted}
use phase.Log.RoundTrip.{items, init_format-printed}
use phase.Log.Loggers.{Logger, Appenders, set_pattern}
use phase.Log.Formatters.{handed, set_pattern-printed}
use phase.Log.Calls.{Call, get, pattern_set, appender_added, level_set}

-- "%d{Y} %m".
abbrev date_and_message : List Piece
date_and_message = formatted 100 (89 ∷ []) ∷ literal (32 ∷ []) ∷ simple 109 ∷ []

init_format-printed_example :
    init_format (37 ∷ 100 ∷ 123 ∷ 89 ∷ 125 ∷ 32 ∷ 37 ∷ 109 ∷ [])
    ≡ some (known_item 100 (89 ∷ []) ∷ string_item (32 ∷ []) ∷ known_item 109 [] ∷ [], false)
init_format-printed_example =
    init_format-printed date_and_message ((refl, (refl, tt)), ((refl, tt), ((refl, tt), tt)))

-- "%%": the second byte is read again, as a directive without a name.
percent_twice :
    init_format (37 ∷ 37 ∷ [])
    ≡ some (string_item (37 ∷ []) ∷ string_item (error_format []) ∷ [], true)
unfolding init_format pattern_loop scan_from scan item_of
percent_twice = refl

-- "%%d": a percent sign, and the date.
percent_twice_and_letter :
    init_format (37 ∷ 37 ∷ 100 ∷ []) ≡ some (string_item (37 ∷ []) ∷ known_item 100 [] ∷ [], false)
unfolding init_format pattern_loop scan_from scan item_of
percent_twice_and_letter = refl

-- "a%d{Y": the note stands before the text that precedes it, and the directive is printed as text.
unterminated :
    init_format (97 ∷ 37 ∷ 100 ∷ 123 ∷ 89 ∷ [])
    ≡ some (string_item pattern_error ∷ string_item (97 ∷ 100 ∷ 123 ∷ 89 ∷ []) ∷ [], true)
unfolding init_format pattern_loop scan_from scan item_of
unterminated = refl

-- The first appender has a formatter of its own.
abbrev appenders : Appenders
appenders zero = record {
  level = 1;
  has_formatter = true;
  formatter = some (record { items = []; error = false });
}
appenders (suc a) = record { level = 2; has_formatter = false; formatter = none }

abbrev logger : Logger
logger = record { name = 97 ∷ []; level = 1; appenders = 0 ∷ 1 ∷ []; formatter = none; root = none }

set_pattern-printed_example :
    (r : Appenders × Logger) × (set_pattern appenders logger (printed date_and_message) ≡ some r)
    × (r.1 ≡ record logger {
      formatter = some (record { items = items [] date_and_message; error = false });
    })
    × ((a : ℕ)
        → r.0 a
          ≡ handed appenders
              (0 ∷ 1 ∷ [])
              (some (record { items = items [] date_and_message; error = false }))
              a)
set_pattern-printed_example =
    set_pattern-printed appenders logger date_and_message
      ((refl, (refl, tt)), ((refl, tt), ((refl, tt), tt)))

-- A logger "a" that is found again, and one "b" with an appender.
abbrev logger_calls : List Call
logger_calls =
    get (97 ∷ []) 8
    ∷ get (97 ∷ []) 9
    ∷ get (98 ∷ []) 10
    ∷ appender_added 10 1
    ∷ level_set 10 4
    ∷ pattern_set 10 (37 ∷ 109 ∷ [])
    ∷ []
