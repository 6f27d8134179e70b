-- ===== src/Log/Logger.antt =====
-- `Logger` and `LoggerManager` of log.cpp. Loggers and appenders are known by their addresses, on
-- a heap; the registry maps names to loggers.
pub mod Delivery
pub mod Registry
use fxk.Base.{
  ℕ, suc, Bool, true, false, Option, none, some, List, [], ◌∷◌, ◌++◌, leb, ◌==◌, if◌then◌else◌,
  Bytes, codes, bytes_eq, Result, ok, ◌>>=◌,
}
use fxk.Log.Level.{Level, info}
use fxk.Log.Format.{LogEvent}
use fxk.Log.Appender.{Sink, Surroundings, LogAppender, new_stdout_appender, log as log_appender}

pub record Logger : Type 0 where
  pub name : Bytes
  pub level : Level
  pub create_time : ℕ
  pub appenders : List ℕ

abbrev pub new_logger : Surroundings → Bytes → Logger
new_logger around name = record {
  name = name;
  level = info;
  create_time = around.elapsed_ms;
  appenders = [];
}

abbrev pub set_level : Logger → Level → Logger
set_level l level = record l { level = level }

abbrev pub add_appender : Logger → ℕ → Logger
add_appender l appender = record l { appenders = l.appenders ++ appender ∷ [] }

-- The first appender that is the given one.
pub erase_first : ℕ → List ℕ → List ℕ
erase_first a [] = []
erase_first a (x ∷ xs) = if x == a then xs else x ∷ erase_first a xs

pub del_appender : Logger → ℕ → Logger
unfolding erase_first
del_appender l appender = record l { appenders = erase_first appender l.appenders }

abbrev pub clear_appenders : Logger → Logger
clear_appenders l = record l { appenders = [] }

pub record World : Type 0 where
  pub appender_at : ℕ → LogAppender
  pub next_appender : ℕ
  pub logger_at : ℕ → Logger
  pub next_logger : ℕ
  pub loggers : List (Bytes × ℕ)
  pub sink : Sink

abbrev pub put {ℓ} : {A : Type ℓ} → (ℕ → A) → ℕ → A → ℕ → A
put h p v q = if p == q then v else h q

abbrev pub put_appender : World → ℕ → LogAppender → World
put_appender w p a = record w { appender_at = put w.appender_at p a }

abbrev pub put_logger : World → ℕ → Logger → World
put_logger w p l = record w { logger_at = put w.logger_at p l }

unfoldable pub lookup : Bytes → List (Bytes × ℕ) → Option ℕ
lookup name [] = none
lookup name ((n, p) ∷ rest) = if bytes_eq n name then some p else lookup name rest

unfoldable pub new_appender : LogAppender → World → ℕ × World
new_appender a w = (
  w.next_appender,
  record w {
    appender_at = put w.appender_at w.next_appender a;
    next_appender = suc w.next_appender;
  },
)

module _ (around : Surroundings) where
  pub log_one : ℕ → LogEvent → World → World
  log_one p event w =
      let (a, s) = log_appender around (w.appender_at p) event w.sink in
      record w { appender_at = put w.appender_at p a; sink = s }

  pub log_all : List ℕ → LogEvent → World → World
  log_all [] event w = w
  log_all (p ∷ ps) event w = log_all ps event (log_one p event w)

  -- `Logger::log`.
  pub log : ℕ → LogEvent → World → World
  log p event w =
      let l = w.logger_at p in
      if leb (around.level_number event.level) (around.level_number l.level)
      then log_all l.appenders event w
      else w

  -- `LoggerManager::getLogger`.
  unfoldable pub get_logger : Bytes → World → ℕ × World
  unfolding lookup
  get_logger name w = elim (lookup name w.loggers) [
    | some p ↦ (p, w)
    | none ↦ (
      w.next_logger,
      record w {
        logger_at = put w.logger_at w.next_logger (new_logger around name);
        next_logger = suc w.next_logger;
        loggers = (name, w.next_logger) ∷ w.loggers;
      },
    )
  ]

  -- The constructor of `LoggerManager`, on empty heaps: a root logger that writes to the console.
  unfoldable pub new_manager : LogAppender → Result World
  unfolding new_stdout_appender get_logger new_appender
  new_manager blank = do
    a ← new_stdout_appender around
    let w0 : World = record {
      appender_at = λ _. blank;
      next_appender = 0;
      logger_at = λ _. new_logger around [];
      next_logger = 0;
      loggers = [];
      sink = record { console = []; files = λ _. [] };
    }
    let (root, w1) = get_logger (codes "root") w0
    let (out, w2) = new_appender a w1
    ok (put_logger w2 root (add_appender (w2.logger_at root) out))
