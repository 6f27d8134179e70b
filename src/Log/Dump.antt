-- ===== src/Log/Dump.antt =====
-- log.cpp: `toYamlString` of the appenders, of `Logger` and of `LoggerManager`.
pub mod Reread
pub mod Whole
use fxk.Base.{
  ℕ, Bool, Option, none, some, List, [], ◌∷◌, Bytes, Result, ok, null_pointer, from_option, ◌>>=◌,
}
use fxk.Config.Cast.{Yaml, insert_pair}
use fxk.Log.Level.{to_string}
use fxk.Log.Appender.{FileState, Kind, stdout_log, file_log, LogAppender, get_formatter}
use fxk.Log.Logger.{Logger, World}
use fxk.Log.Define.{
  YamlTexts, name_key, level_key, appenders_key, type_key, file_key, pattern_key, file_type,
  stdout_type,
}

abbrev pub in_order : (Bytes → Bytes → Bool) → List (Bytes × ℕ) → List (Bytes × ℕ)
in_order less [] = []
in_order less (x ∷ l) = insert_pair less x (in_order less l)

module _ (yaml : Yaml) (texts : YamlTexts yaml) where
  open yaml use {Node, load, emit, sequence, mapping}
  open texts use {scalar}

  -- A node that nothing was put in: null, which like a map without keys has none.
  abbrev pub pushed : List Node → Node
  pushed [] = mapping []
  pushed (n ∷ nodes) = sequence (n ∷ nodes)

  -- `StdoutLogAppender::toYamlString` goes to the appender's own formatter, which may be null.
  abbrev pub console_yaml : LogAppender → Result Bytes
  console_yaml a = do
    f ← from_option a.formatter null_pointer
    ok (emit (mapping ((type_key, scalar stdout_type) ∷ (pattern_key, scalar f.pattern) ∷ [])))

  -- `FileLogAppender::toYamlString`.
  abbrev pub file_yaml : FileState → LogAppender → Result Bytes
  file_yaml f a = ok (
      emit (
        mapping (
          (type_key, scalar file_type)
          ∷ (file_key, scalar f.filename)
          ∷ (pattern_key, scalar (get_formatter a).pattern)
          ∷ [])))

  abbrev pub kind_yaml : Kind → LogAppender → Result Bytes
  kind_yaml stdout_log a = console_yaml a
  kind_yaml (file_log f) a = file_yaml f a

  unfoldable pub appender_yaml : LogAppender → Result Bytes
  appender_yaml a = kind_yaml a.kind a

  unfoldable pub appender_nodes : World → List ℕ → Result (List Node)
  appender_nodes w [] = ok []
  appender_nodes w (p ∷ ps) = do
    s ← appender_yaml (w.appender_at p)
    n ← load s
    nodes ← appender_nodes w ps
    ok (n ∷ nodes)

  -- The key is there from the first appender on.
  abbrev pub appenders_pair : List Node → List (Bytes × Node)
  appenders_pair [] = []
  appenders_pair (n ∷ nodes) = (appenders_key, sequence (n ∷ nodes)) ∷ []

  unfoldable pub logger_yaml : World → Logger → Result Bytes
  logger_yaml w l = do
    nodes ← appender_nodes w l.appenders
    ok (
        emit (
          mapping (
            (name_key, scalar l.name)
            ∷ (level_key, scalar (to_string l.level))
            ∷ appenders_pair nodes)))

  unfoldable pub logger_nodes : World → List (Bytes × ℕ) → Result (List Node)
  logger_nodes w [] = ok []
  logger_nodes w ((name, p) ∷ rest) = do
    s ← logger_yaml w (w.logger_at p)
    n ← load s
    nodes ← logger_nodes w rest
    ok (n ∷ nodes)

  -- With the order of `std::string`, in which `std::map` is iterated.
  unfoldable pub manager_yaml : (Bytes → Bytes → Bool) → World → Result Bytes
  manager_yaml less w = do
    nodes ← logger_nodes w (in_order less w.loggers)
    ok (emit (pushed nodes))
