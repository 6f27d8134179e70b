-- ===== src/Tests/ListenerTests.antt =====
-- The listener of the log configuration on concrete inputs.
use fxk.Base.{
  ℕ, true, false, none, some, [], ◌∷◌, ◌≡◌, refl, inl, inr, arith, codes, bytes_eq, bytes_eq_iff,
  ok, err, null_pointer,
}
use fxk.Log.Level.{to_ℕ, warn, debug, info}
use fxk.Log.Pattern.{LogFormatter, init}
use fxk.Log.Appender.{Surroundings, stdout_log}
use fxk.Log.Logger.{World, lookup}
use fxk.Log.Logger.Registry.{IsRegistry}
use fxk.Log.Listener.{LogAppenderDefine, LogDefine, find, configure, apply_defines, on_change}
use fxk.Log.Listener.Changes.{IsKept, on_change_level}
use fxk.Log.Listener.Muting.{IsMuted, on_change_gone}
use fxk.Log.Listener.Configuring.{configure_new}
use fxk.Log.Listener.Building.{IsAppender, AreBuilt}

abbrev around : Surroundings
around = record {
  strftime = λ size f t. f;
  opens = λ name. true;
  has_d = false;
  elapsed_ms = 3;
  level_number = to_ℕ;
  writes = λ name. true;
}

abbrev formatter : LogFormatter
formatter = record { pattern = []; items = []; error = false }

abbrev world : World
world = record {
  appender_at = λ p. record { kind = stdout_log; formatter = none; default_formatter = formatter };
  next_appender = 0;
  logger_at = λ p. record { name = codes "root"; level = debug; create_time = 0; appenders = [] };
  next_logger = 1;
  loggers = (codes "root", 0) ∷ [];
  sink = record { console = []; files = λ name. [] };
}

world-IsRegistry : IsRegistry world
unfolding lookup
world-IsRegistry = record {
  allocated = λ n p h. ground (arith, bytes_eq_iff (codes "root") n);
  named = λ n p h. ground (arith, bytes_eq_iff (codes "root") n);
}

abbrev to_file : LogAppenderDefine
to_file = record { type = 1; pattern = codes "%m%n"; file = codes "a.log" }

abbrev to_console : LogAppenderDefine
to_console = record { type = 2; pattern = []; file = [] }

abbrev system : LogDefine
system = record { name = codes "system"; level = info; appenders = to_file ∷ to_console ∷ [] }

abbrev quieter : LogDefine
quieter = record { name = codes "system"; level = warn; appenders = to_file ∷ to_console ∷ [] }

abbrev elsewhere : LogDefine
elsewhere = record { name = codes "system"; level = info; appenders = to_console ∷ [] }

abbrev database : LogDefine
database = record { name = codes "db"; level = debug; appenders = [] }

system-AreAppenders : IsAppender to_file × IsAppender to_console × Unit {0}
unfolding init
system-AreAppenders = ((inl refl, (_, refl)), (inr refl, (_, refl)), tt)

configure_new_example :
    (w' : World) × (configure around system world ≡ ok w')
    × IsRegistry w'
    × ((p : ℕ) × (lookup (codes "system") w'.loggers ≡ some p)
        × ((w'.logger_at p).level ≡ info)
        × AreBuilt w'.appender_at (to_file ∷ to_console ∷ []) (w'.logger_at p).appenders)
configure_new_example =
    configure_new around system world world-IsRegistry
      (system-AreAppenders.0, (system-AreAppenders.1, system-AreAppenders.2)) refl

found_before : find quieter (system ∷ []) ≡ some system
unfolding find bytes_eq
found_before = refl

none_applied : apply_defines around (system ∷ []) [] world ≡ ok world
unfolding apply_defines
none_applied = refl

on_change_level_example :
    on_change around (system ∷ []) (quieter ∷ database ∷ []) world ≡ err null_pointer
on_change_level_example =
    on_change_level around (system ∷ []) [] (database ∷ []) quieter system world world found_before
      (λ e. omega (arith, e)) none_applied

elsewhere-IsKept : IsKept around (system ∷ []) elsewhere
unfolding find bytes_eq
elsewhere-IsKept = (system, refl, refl)

system-IsKept : IsKept around (elsewhere ∷ []) system
unfolding find bytes_eq
system-IsKept = (elsewhere, refl, refl)

system_stays : IsKept around (database ∷ system ∷ []) system
unfolding find bytes_eq
system_stays = (system, refl, refl)

database_goes : find database (system ∷ []) ≡ none
unfolding find bytes_eq
database_goes = refl

on_change_gone_example :
    (w' : World) × (on_change around (database ∷ system ∷ []) (system ∷ []) world ≡ ok w')
    × IsMuted around w' (codes "db")
on_change_gone_example =
    on_change_gone around [] (system ∷ []) (system ∷ []) database world world-IsRegistry
      (system_stays, tt) database_goes
