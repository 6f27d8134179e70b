-- ===== src/Tests/DumpTests.antt =====
-- What the loggers say of themselves as texts, on concrete inputs.
use fxk.Base.{
  ℕ, zero, suc, false, none, some, List, [], ◌∷◌, Bytes, codes, ok, err, null_pointer, ◌≡◌, refl,
  ◌⊎◌,
}
use fxk.Config.Cast.{set_cast, insert_pair}
use fxk.Log.Level.{info, debug}
use fxk.Log.Pattern.{LogFormatter}
use fxk.Log.Appender.{LogAppender, stdout_log, file_log}
use fxk.Log.Logger.{Logger, World}
use fxk.Log.Listener.{LogAppenderDefine, LogDefine}
use fxk.Log.Define.{define_cast, read_define}
use fxk.Log.Define.Whole.{define_less}
use fxk.Log.Dump.{in_order, logger_yaml, appender_nodes, appender_yaml, manager_yaml}
use fxk.Log.Dump.Reread.{defines_of, logger_yaml-read_define}
use fxk.Log.Dump.Whole.{loggers_define, manager_yaml-reads}
use fxk.Tests.Formats.{yaml, yaml-IsYaml, texts, texts-IsTexts, text_less, to_file, to_console}

abbrev short_format : LogFormatter
short_format = record { pattern = codes "%m"; items = []; error = false }

abbrev empty_format : LogFormatter
empty_format = record { pattern = []; items = []; error = false }

-- A file, a console, and a console without a formatter of its own.
abbrev appenders : ℕ → LogAppender
appenders zero = record {
  kind = file_log (record { filename = codes "a.log"; last_time = 0; reopen_error = false });
  formatter = none;
  default_formatter = short_format;
}
appenders (suc zero) = record {
  kind = stdout_log;
  formatter = some empty_format;
  default_formatter = short_format;
}
appenders (suc (suc p)) = record {
  kind = stdout_log;
  formatter = none;
  default_formatter = short_format;
}

abbrev db : Logger
db = record { name = codes "db"; level = debug; create_time = 0; appenders = 0 ∷ 1 ∷ [] }

abbrev web : Logger
web = record { name = codes "web"; level = info; create_time = 0; appenders = [] }

abbrev two_loggers : World
two_loggers = record {
  appender_at = appenders;
  next_appender = 3;
  logger_at = λ (p : ℕ). elim p [ zero ↦ db | suc q ↦ web ];
  next_logger = 2;
  loggers = (codes "web", 1) ∷ (codes "db", 0) ∷ [];
  sink = record { console = []; files = λ _. [] };
}

abbrev two_defines : List LogDefine
two_defines =
    record { name = codes "db"; level = debug; appenders = to_file ∷ to_console ∷ [] }
    ∷ record { name = codes "web"; level = info; appenders = [] }
    ∷ []

mute_console-run :
    logger_yaml yaml texts two_loggers (record web { appenders = 2 ∷ [] }) ≡ err null_pointer
unfolding logger_yaml appender_nodes appender_yaml
mute_console-run = refl

logger_yaml-read_define_example :
    ((defines_of two_loggers (0 ∷ 1 ∷ []) ≡ none)
      × (logger_yaml yaml texts two_loggers db ≡ err null_pointer))
    ⊎ ((as' : List LogAppenderDefine) × (n : Bytes) × (defines_of two_loggers (0 ∷ 1 ∷ [])
          ≡ some as')
        × (logger_yaml yaml texts two_loggers db ≡ ok n)
        × (read_define yaml texts n
            ≡ ok (record { name = codes "db"; level = debug; appenders = as' })))
logger_yaml-read_define_example =
    logger_yaml-read_define yaml texts texts-IsTexts yaml-IsYaml two_loggers db

two_loggers-Define :
    loggers_define two_loggers (in_order text_less two_loggers.loggers) ≡ some two_defines
unfolding insert_pair
two_loggers-Define = refl

manager_yaml-reads_example :
    (s : Bytes) × (manager_yaml yaml texts text_less two_loggers ≡ ok s)
    × ((set_cast yaml (define_cast yaml texts) (define_less text_less)).from_str s ≡ ok two_defines)
manager_yaml-reads_example =
    manager_yaml-reads yaml texts texts-IsTexts yaml-IsYaml text_less two_loggers two_defines
      two_loggers-Define (((refl, refl), tt), (tt, tt))
