-- ===== src/Log/Appender.antt =====
-- The appenders of log.cpp: `LogAppender`, `StdoutLogAppender` and `FileLogAppender`. What they
-- write goes to a sink, the console and the files by name. A write that fails leaves the file as it
-- was.
use fxk.Base.{
  ℕ, ◌+◌, ◌%◌, ◌^◌, Bool, false, not, Option, none, some, [], ◌∷◌, ◌++◌, ltb, if◌then◌else◌, Bytes,
  codes, bytes_eq, Result, ◌>>=◌, ok,
}
use fxk.Log.Level.{Level}
use fxk.Log.Pattern.{LogFormatter, init}
use fxk.Log.Format.{LogEvent, format}

pub record Sink : Type 0 where
  pub console : Bytes
  pub files : Bytes → Bytes

-- What the process finds around it: what a buffer of a size holds behind the C library's `strftime`
-- on local time, the files that can be opened, the open ones to which a write succeeds, whether the
-- command line has the option `d`, the elapsed time, and the numbers of the levels, which
-- log/log.h and log.h give in opposite orders.
pub record Surroundings : Type 0 where
  pub strftime : ℕ → Bytes → ℕ → Bytes
  pub opens : Bytes → Bool
  pub writes : Bytes → Bool
  pub has_d : Bool
  pub elapsed_ms : ℕ
  pub level_number : Level → ℕ

pub record FileState : Type 0 where
  pub filename : Bytes
  pub last_time : ℕ
  pub reopen_error : Bool

pub data Kind : Type 0 where
  stdout_log : Kind
  file_log : FileState → Kind

pub record LogAppender : Type 0 where
  pub kind : Kind
  pub formatter : Option LogFormatter
  pub default_formatter : LogFormatter

-- The default argument of the constructor of `LogFormatter`.
abbrev pub default_pattern : Bytes
default_pattern = codes "%d{%Y-%m-%d %H:%M;%S}[%rms]%T%t%T%N%T%F%T[%p]%T[%c]%T%f:%l%T%m%n"

abbrev pub set_formatter : LogAppender → Option LogFormatter → LogAppender
set_formatter a val = record a { formatter = val }

abbrev pub get_formatter : LogAppender → LogFormatter
get_formatter a = elim a.formatter [ none ↦ a.default_formatter | some f ↦ f ]

abbrev pub print_console : Sink → Bytes → Sink
print_console s text = record s { console = s.console ++ text }

abbrev pub append_file : Sink → Bytes → Bytes → Sink
append_file s name text = record s {
  files = λ n. if bytes_eq n name then s.files n ++ text else s.files n;
}

abbrev pub reopen_message : Bytes → Bytes
reopen_message name = codes "reopen file " ++ (name ++ (codes " error" ++ b'\n' ∷ []))

abbrev pub write_message : Bytes
write_message = codes "[ERROR] FileLogAppender::log() format error" ++ b'\n' ∷ []

module _ (around : Surroundings) where
  -- `reopen`: the stream is closed and opened again for appending.
  unfoldable pub reopen : FileState → FileState × Bool
  reopen f =
      let opened = around.opens f.filename in (record f { reopen_error = not opened }, opened)

  -- What both callers print after `reopen`.
  abbrev report : FileState → Sink → Sink
  report f s = if f.reopen_error then print_console s (reopen_message f.filename) else s

  unfoldable pub new_file_appender : Bytes → Sink → Result (LogAppender × Sink)
  unfolding reopen
  new_file_appender file s = do
    default ← init default_pattern
    let (f, _) = reopen (record { filename = file; last_time = 0; reopen_error = false })
    ok (record { kind = file_log f; formatter = none; default_formatter = default }, report f s)

  unfoldable pub new_stdout_appender : Result LogAppender
  new_stdout_appender = do
    default ← init default_pattern
    ok (record { kind = stdout_log; formatter = none; default_formatter = default })

  -- The head of `FileLogAppender::log`, which reopens the file every three seconds.
  check_reopen : FileState → ℕ → Sink → FileState × Sink
  unfolding reopen
  check_reopen f now s =
      if ltb now ((f.last_time + 3) % 2 ^ 64)
      then (f, s)
      else (let (f', _) = reopen f in (record f' { last_time = now }, report f' s))

  write_file : FileState → Bytes → Sink → Sink
  write_file f text s =
      if f.reopen_error
      then s
      else (if around.writes f.filename
          then append_file s f.filename text
          else print_console s write_message)

  log_kind : Kind → LogAppender → LogEvent → Sink → LogAppender × Sink
  unfolding check_reopen write_file
  log_kind stdout_log a event s =
      (a, print_console s (format around.strftime (get_formatter a) event))
  log_kind (file_log f) a event s =
      let (f', s') = check_reopen f event.time s in
      (
        record a { kind = file_log f' },
        write_file f' (format around.strftime (get_formatter a) event) s',
      )

  unfoldable pub log : LogAppender → LogEvent → Sink → LogAppender × Sink
  unfolding log_kind
  log a event s = log_kind a.kind a event s
