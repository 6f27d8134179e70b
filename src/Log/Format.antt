-- ===== src/Log/Format.antt =====
-- `LogEvent`, the `format` of each kind of `FormatItem`, and `LogFormatter::format`. The standard
-- library's `strftime` on the local time is an argument; what a stream prints of a number is its
-- decimal digits.
pub mod Render
use fxk.Base.{ℕ, zero, suc, ◌+◌, ◌/◌, ◌%◌, List, [], ◌∷◌, ◌++◌, ◌==◌, if◌then◌else◌, Bytes, codes}
use fxk.Log.Level.{Level, to_string}
use fxk.Log.Pattern.{
  FormatItem, message, level, elapse, logger_name, thread_id, fiber_id, thread_name, file_name,
  line, newline, tab, percent_sign, date_time, string, LogFormatter,
}

pub record LogEvent : Type 0 where
  pub level : Level
  pub ss : Bytes
  pub file : Bytes
  pub line : ℕ
  pub elapse : ℕ
  pub thread_id : ℕ
  pub fiber_id : ℕ
  pub time : ℕ
  pub thread_name : Bytes
  pub logger_name : Bytes

-- The constructor: the message starts empty.
abbrev pub new_event : Bytes → Level → Bytes → ℕ → ℕ → ℕ → ℕ → ℕ → Bytes → LogEvent
new_event name lvl path line_no elapsed tid fid now tname = record {
  level = lvl;
  ss = [];
  file = path;
  line = line_no;
  elapse = elapsed;
  thread_id = tid;
  fiber_id = fid;
  time = now;
  thread_name = tname;
  logger_name = name;
}

-- A number has no more digits than its value and one.
digits : ℕ → ℕ → Bytes → Bytes
digits zero n acc = acc
digits (suc fuel) n acc =
    let more = digits fuel (n / 10) ((b'0' + n % 10) ∷ acc) in
    if n / 10 == 0 then (b'0' + n % 10) ∷ acc else more

unfoldable pub decimal : ℕ → Bytes
unfolding digits
decimal n = digits (suc n) n []

-- `char buf[64]`
abbrev pub buffer_size : ℕ
buffer_size = 64

module _ (strftime : ℕ → Bytes → ℕ → Bytes) where
  unfoldable pub format_item : FormatItem → LogEvent → Bytes
  format_item message event = event.ss
  format_item level event = to_string event.level
  format_item elapse event = decimal event.elapse
  format_item logger_name event = event.logger_name
  format_item thread_id event = decimal event.thread_id
  format_item fiber_id event = decimal event.fiber_id
  format_item thread_name event = event.thread_name
  format_item (date_time format) event = strftime buffer_size format event.time
  format_item file_name event = event.file
  format_item line event = decimal event.line
  format_item newline event = b'\n' ∷ []
  format_item (string s) event = s
  format_item tab event = b'\t' ∷ []
  format_item percent_sign event = b'%' ∷ []

  -- The loop over the items, each writing to the stream.
  unfoldable pub format_items : Bytes → List FormatItem → LogEvent → Bytes
  format_items os [] event = os
  format_items os (i ∷ is) event = format_items (os ++ format_item i event) is event

  unfoldable pub format : LogFormatter → LogEvent → Bytes
  unfolding format_items
  format f event = format_items [] f.items event
