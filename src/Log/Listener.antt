-- ===== src/Log/Listener.antt =====
-- `LogAppenderDefine`, `LogDefine` and the listener of `LogIniter`, which brings the loggers in
-- line with a changed configuration. `std::set<LogDefine>` is a list, ordered by name.
pub mod Appending
pub mod Building
pub mod Changes
pub mod Muting
pub mod Configuring
use fxk.Base.{
  from_option, ℕ, Bool, true, false, not, ◌&&◌, Option, none, some, List, [], ◌∷◌, ◌==◌,
  if◌then◌else◌, Bytes, bytes_eq, Result, ok, err, null_pointer, ◌>>=◌,
}
use fxk.Log.Level.{Level, notset, to_ℕ}
use fxk.Log.Pattern.{LogFormatter, init}
use fxk.Log.Appender.{
  Surroundings, LogAppender, default_pattern, set_formatter, new_file_appender, new_stdout_appender,
}
use fxk.Log.Logger.{
  Logger, World, put_logger, set_level, clear_appenders, add_appender, get_logger, new_appender,
}

-- The type is 1 for a file and 2 for the console.
pub record LogAppenderDefine : Type 0 where
  pub type : ℕ
  pub pattern : Bytes
  pub file : Bytes

pub record LogDefine : Type 0 where
  pub name : Bytes
  pub level : Level
  pub appenders : List LogAppenderDefine

appender_define_eq : LogAppenderDefine → LogAppenderDefine → Bool
appender_define_eq a b = a.type == b.type && bytes_eq a.pattern b.pattern && bytes_eq a.file b.file

appender_defines_eq : List LogAppenderDefine → List LogAppenderDefine → Bool
unfolding appender_define_eq
appender_defines_eq [] [] = true
appender_defines_eq (a ∷ as') (b ∷ bs) = appender_define_eq a b && appender_defines_eq as' bs
appender_defines_eq _ _ = false

-- The appenders are compared with themselves.
unfoldable pub define_eq : LogDefine → LogDefine → Bool
unfolding appender_defines_eq
define_eq d oth =
    bytes_eq d.name oth.name
    && to_ℕ d.level == to_ℕ oth.level
    && appender_defines_eq d.appenders d.appenders

pub is_valid : LogDefine → Bool
is_valid d = not (bytes_eq d.name [])

-- `find`: two definitions are equivalent if neither name comes before the other.
unfoldable pub find : LogDefine → List LogDefine → Option LogDefine
find d [] = none
find d (e ∷ es) = if bytes_eq e.name d.name then some e else find d es

abbrev pub reset_logger : ℕ → Level → World → World
reset_logger p level w = put_logger w p (clear_appenders (set_level (w.logger_at p) level))

abbrev pub formatter_pattern : Bytes → Bytes
formatter_pattern [] = default_pattern
formatter_pattern (c ∷ cs) = c ∷ cs

module _ (around : Surroundings) where
  -- The appender of one definition: `some none` where the loop goes on without one. Another type
  -- than 1 and 2 leaves the pointer null, and `setFormatter` follows it.
  make_appender : LogAppenderDefine → World → Result (Option (LogAppender × World))
  make_appender a w =
      if a.type == 1
      then (do
        (ap, s) ← new_file_appender around a.file w.sink
        ok (some (ap, record w { sink = s })))
      else if a.type == 2
      then (if not around.has_d
          then (do ap ← new_stdout_appender around; ok (some (ap, w)))
          else ok none)
      else err null_pointer

  add_made : ℕ → LogAppenderDefine → World → Option (LogAppender × World) → Result World
  add_made logger a w none = ok w
  add_made logger a _ (some (ap, w)) = do
    f ← init (formatter_pattern a.pattern)
    let (p, w') = new_appender (set_formatter ap (some f)) w
    ok (put_logger w' logger (add_appender (w'.logger_at logger) p))

  pub add_appenders : ℕ → List LogAppenderDefine → World → Result World
  unfolding make_appender add_made
  add_appenders logger [] w = ok w
  add_appenders logger (a ∷ rest) w = do
    made ← make_appender a w
    w' ← add_made logger a w made
    add_appenders logger rest w'

  -- What follows on the choice of the logger; the calls on a null pointer are undefined.
  abbrev pub set_up : Option ℕ → LogDefine → World → Result World
  set_up logger i w = do
    p ← from_option logger null_pointer
    add_appenders p i.appenders (reset_logger p i.level w)

  pub configure : LogDefine → World → Result World
  configure i w = let (p, w') = get_logger around i.name w in set_up (some p) i w'

  -- `logger == SYLAR_LOG_NAME(i.name)`: the call is made, and the pointer stays null.
  pub reconfigure : LogDefine → World → Result World
  reconfigure i w = let (p, w') = get_logger around i.name w in set_up none i w'

  pub apply_define : List LogDefine → LogDefine → World → Result World
  unfolding configure reconfigure
  apply_define old i w = elim (find i old) [
    | none ↦ configure i w
    | some d ↦ if not (define_eq i d) then reconfigure i w else ok w
  ]

  unfoldable pub apply_defines : List LogDefine → List LogDefine → World → Result World
  unfolding apply_define
  apply_defines old [] w = ok w
  apply_defines old (i ∷ is) w = do w' ← apply_define old i w; apply_defines old is w'

  pub drop_define : List LogDefine → LogDefine → World → World
  drop_define new i w = elim (find i new) [
    | none ↦ (let (p, w') = get_logger around i.name w in reset_logger p notset w')
    | some d ↦ w
  ]

  pub drop_defines : List LogDefine → List LogDefine → World → World
  unfolding drop_define
  drop_defines new [] w = w
  drop_defines new (i ∷ is) w = drop_defines new is (drop_define new i w)

  unfoldable pub on_change : List LogDefine → List LogDefine → World → Result World
  unfolding apply_defines drop_defines
  on_change old new w = do w' ← apply_defines old new w; ok (drop_defines new old w')
