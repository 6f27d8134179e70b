-- ===== src/Tests/LogTests.antt =====
-- The logger on concrete inputs.
use fxk.Base.{
  take, ℕ, ◌≤◌, ◌<◌, true, false, some, List, [], ◌∷◌, ◌++◌, ◌≡◌, refl, ◌⊎◌, arith, Bytes, codes,
  bytes_eq_iff, ok,
}
use fxk.Log.Level.{info, warn, to_ℕ}
use fxk.Log.Pattern.{
  message, level, newline, percent_sign, date_time, string, LogFormatter, with_pieces, init,
  format_item,
}
use fxk.Log.Pattern.Scan.{
  Segment, plain, date, AreSegments, IsText, print, pieces, text_pieces, dates, init-print,
}
use fxk.Log.Format.{LogEvent, format}
use fxk.Log.Format.Render.{AllKnown, show, format-init}
use fxk.Log.Appender.{Sink, Surroundings, stdout_log, LogAppender, print_console}
use fxk.Log.Logger.{Logger, World, log, get_logger, lookup}
use fxk.Log.Logger.Registry.{IsRegistry, Provides, get_logger-Provides}
use fxk.Log.Logger.Delivery.{texts, log-delivers}

-- `[%p] %d{%H:%M} %m`, and text behind it.
abbrev segments : List Segment
segments =
    record { text = codes "["; spec = plain b'p' }
    ∷ record { text = codes "] "; spec = date (codes "%H:%M") }
    ∷ record { text = codes " "; spec = plain b'm' }
    ∷ []

abbrev tail : Bytes
tail = codes ";"

segments-AreSegments : AreSegments segments
segments-AreSegments = (
  (refl, tt),
  refl,
  ((refl, (refl, tt)), (refl, (refl, (refl, (refl, (refl, tt))))), ((refl, tt), refl, tt)),
)

tail-IsText : IsText tail
tail-IsText = (refl, tt)

segments-AllKnown : AllKnown segments
unfolding format_item
segments-AllKnown = ((level, refl), (tt, ((message, refl), tt)))

-- What `strftime` is taken to print here.
abbrev clock : ℕ → Bytes → ℕ → Bytes
clock size f t = take size f

abbrev event : LogEvent
event = record {
  level = warn;
  ss = codes "low disk";
  file = codes "main.cpp";
  line = 12;
  elapse = 5;
  thread_id = 1;
  fiber_id = 2;
  time = 1000;
  thread_name = codes "main";
  logger_name = codes "system";
}

abbrev formatter : LogFormatter
formatter = record {
  pattern = codes "%p %m";
  items = level ∷ string (codes " ") ∷ message ∷ [];
  error = false;
}

abbrev console : LogAppender
console = record { kind = stdout_log; formatter = some formatter; default_formatter = formatter }

abbrev around : Surroundings
around = record {
  strftime = clock;
  opens = λ name. true;
  has_d = false;
  elapsed_ms = 3;
  level_number = to_ℕ;
  writes = λ name. true;
}

abbrev sink : Sink
sink = record { console = []; files = λ name. [] }

abbrev system : Logger
system = record { name = codes "system"; level = info; create_time = 0; appenders = 0 ∷ 0 ∷ [] }

abbrev world : World
world = record {
  appender_at = λ p. console;
  next_appender = 1;
  logger_at = λ p. system;
  next_logger = 1;
  loggers = (codes "system", 0) ∷ [];
  sink = sink;
}

world-IsRegistry : IsRegistry world
unfolding lookup
world-IsRegistry = record {
  allocated = λ n p h. ground (arith, bytes_eq_iff (codes "system") n);
  named = λ n p h. ground (arith, bytes_eq_iff (codes "system") n);
}

init-run :
    init (codes "[%p] %d{%H:%M} 100%% %m%n")
    ≡ ok (record {
      pattern = codes "[%p] %d{%H:%M} 100%% %m%n";
      items =
          string (codes "[")
          ∷ level
          ∷ string (codes "] ")
          ∷ date_time (codes "%H:%M")
          ∷ string (codes " 100")
          ∷ percent_sign
          ∷ string (codes " ")
          ∷ message
          ∷ newline
          ∷ [];
      error = false;
    })
unfolding init
init-run = refl

init-print_example :
    init (codes "[%p] %d{%H:%M} %m;")
    ≡ ok (
        with_pieces (codes "[%p] %d{%H:%M} %m;") (
          some (record {
            patterns = pieces segments ++ text_pieces tail;
            tmp = [];
            dateformat = codes "%H:%M";
          })))
init-print_example = init-print segments tail segments-AreSegments tail-IsText

format-init_example :
    (f : LogFormatter) × (init (print segments tail) ≡ ok f)
    × (f.error ≡ false)
    × (format clock f event ≡ show clock event (dates segments) segments tail)
format-init_example =
    format-init clock event segments tail segments-AreSegments tail-IsText segments-AllKnown

get_logger-Provides_example :
    Provides around (codes "db") world (get_logger around (codes "db") world)
get_logger-Provides_example = get_logger-Provides around (codes "db") world world-IsRegistry

log-delivers_example :
    ((to_ℕ info < to_ℕ warn) × (log around 0 event world ≡ world))
    ⊎ ((to_ℕ warn ≤ to_ℕ info)
        × (log around 0 event world ≡ record world {
          sink = print_console world.sink (texts around event world.appender_at (0 ∷ 0 ∷ []));
        }))
log-delivers_example = log-delivers around event 0 world (refl, (refl, tt))
