-- ===== src/Log/Logger/Delivery.antt =====
-- `Logger::log`: which events reach the appenders, and in which order.
use mathlib.Core.List.{append-nil, append_assoc}
use mathlib.Core.Path.{fun_ext}
use fxk.Base.{
  Bool-cases, ◌⊎◌, inl, inr, leb, refl, ℕ, ◌≤◌, ◌<◌, List, [], ◌∷◌, ◌++◌, ◌≡◌, ◌∙◌, arith, All,
  Bytes,
}
use fxk.Log.Format.{LogEvent, format}
use fxk.Log.Appender.{
  Sink, Surroundings, LogAppender, stdout_log, get_formatter, print_console, log as log_appender,
}
use fxk.Log.Logger.{World, put, log_one, log_all, log}

put_same {ℓ} : {A : Type ℓ} (h : ℕ → A) (p : ℕ) → put h p (h p) ≡ h
put_same h p = fun_ext λ q. ground arith

module _ (around : Surroundings) (event : LogEvent) where
  abbrev pub text_of : LogAppender → Bytes
  text_of a = format around.strftime (get_formatter a) event

  -- What the appenders print, one behind the other.
  abbrev pub texts : (ℕ → LogAppender) → List ℕ → Bytes
  texts h [] = []
  texts h (p ∷ ps) = text_of (h p) ++ texts h ps

  abbrev pub AreConsoles : (ℕ → LogAppender) → List ℕ → Type 0
  AreConsoles h = All (λ p. (h p).kind ≡ stdout_log)

  log_console :
      (a : LogAppender) (s : Sink)
      → a.kind ≡ stdout_log
      → log_appender around a event s ≡ (a, print_console s (text_of a))
  unfolding log_appender
  log_console a s k = ground arith

  log_one_console :
      (p : ℕ) (w : World)
      → (w.appender_at p).kind ≡ stdout_log
      → log_one around p event w
        ≡ record w { sink = print_console w.sink (text_of (w.appender_at p)) }
  unfolding log_one
  log_one_console p w k =
      rw (log_console (w.appender_at p) w.sink k) (rw (put_same w.appender_at p))

  log_all_console :
      (ps : List ℕ) (w : World)
      → AreConsoles w.appender_at ps
      → log_all around ps event w
        ≡ record w { sink = print_console w.sink (texts w.appender_at ps) }
  unfolding log_all
  log_all_console [] w k = rw append-nil
  log_all_console (p ∷ ps) w k = rw (log_one_console p w k.0) (
      log_all_console ps (record w { sink = print_console w.sink (text_of (w.appender_at p)) }) k.1
      ∙ rw append_assoc)

  -- Whatever numbers the levels have, and of a logger whose appenders all write to the console: an
  -- event whose level is numbered above the logger's changes nothing. Any other reaches every appender once, in the order in which they
  -- were added; their texts stand on the console one behind the other, and nothing else changes.
  pub log-delivers :
      (p : ℕ) (w : World)
      → AreConsoles w.appender_at (w.logger_at p).appenders
      → ((around.level_number (w.logger_at p).level < around.level_number event.level)
          × (log around p event w ≡ w))
        ⊎ ((around.level_number event.level ≤ around.level_number (w.logger_at p).level)
            × (log around p event w ≡ record w {
              sink = print_console w.sink (texts w.appender_at (w.logger_at p).appenders);
            }))
  unfolding log
  log-delivers p w k =
      elim (Bool-cases
        (leb (around.level_number event.level) (around.level_number (w.logger_at p).level))) [
          | inr h ↦ inl (ground arith, rw h refl)
          | inl h ↦ inr (ground arith, rw h (log_all_console (w.logger_at p).appenders w k))
        ]
