-- ===== src/Log/Dump/Whole.antt =====
-- log.cpp: what `LoggerManager::toYamlString` says, read as the configuration of the loggers.
use mathlib.Core.Path.{subst}
use fxk.Base.{
  ℕ, Bool, Option, none, some, List, [], ◌∷◌, Bytes, Result, ok, err, null_pointer, ◌>>=◌, ◌≡◌,
  refl, sym, inl, inr,
}
use fxk.Config.Cast.{Yaml, set_cast, read_element}
use fxk.Config.Cast.RoundTrip.{IsYaml, IsAscending, Stand, insert_back}
use fxk.Log.Logger.{Logger, World}
use fxk.Log.Listener.{LogAppenderDefine, LogDefine}
use fxk.Log.Define.{YamlTexts, define_cast, read_define}
use fxk.Log.Define.Reading.{IsTexts}
use fxk.Log.Define.Whole.{define_less}
use fxk.Log.Dump.{in_order, pushed, logger_yaml, logger_nodes, manager_yaml}
use fxk.Log.Dump.Reread.{defines_of, logger_yaml-read_define}

-- The definition that a logger comes up to.
abbrev pub with_appenders : Logger → Option (List LogAppenderDefine) → Option LogDefine
with_appenders l none = none
with_appenders l (some as') = some (record { name = l.name; level = l.level; appenders = as' })

abbrev cons_define : Option LogDefine → Option (List LogDefine) → Option (List LogDefine)
cons_define none l = none
cons_define (some d) none = none
cons_define (some d) (some l) = some (d ∷ l)

abbrev pub loggers_define : World → List (Bytes × ℕ) → Option (List LogDefine)
loggers_define w [] = some []
loggers_define w ((name, p) ∷ rest) =
    cons_define (with_appenders (w.logger_at p) (defines_of w (w.logger_at p).appenders))
      (loggers_define w rest)

module _ (yaml : Yaml) (texts : YamlTexts yaml) (reads : IsTexts yaml texts)
    (laws : IsYaml yaml) where
  open yaml use {Node, load, emit, elements}

  abbrev TellsLogger : Option LogDefine → Result Bytes → Type 0
  TellsLogger none r = r ≡ err null_pointer
  TellsLogger (some d) r = (n : Node) × (r ≡ ok (emit n)) × (read_define yaml texts (emit n) ≡ ok d)

  -- Each node is one of which the logger's definition is read.
  abbrev TellsLoggers : Option (List LogDefine) → Result (List Node) → Type 0
  TellsLoggers none r = r ≡ err null_pointer
  TellsLoggers (some logs) r =
      (nodes : List Node) × (r ≡ ok nodes) × Stand yaml laws (define_cast yaml texts) nodes logs

  add_logger-Tells :
      (d : Option LogDefine) (l : Option (List LogDefine)) (r : Result Bytes)
      (rs : Result (List Node))
      → TellsLogger d r
      → TellsLoggers l rs
      → TellsLoggers (cons_define d l) (r >>= λ s. load s >>= λ n. rs >>= λ nodes. ok (n ∷ nodes))
  unfolding define_cast read_element
  add_logger-Tells none l r rs h hs = rw h refl
  add_logger-Tells (some d) none r rs (n, e, reads_d) hs = rw e (rw (laws.load-emit n) (rw hs refl))
  add_logger-Tells (some d) (some l) r rs (n, e, reads_d) (nodes, es, stand) =
      (n ∷ nodes, rw e (rw (laws.load-emit n) (rw es refl)), (reads_d, stand))

  logger-Tells :
      (w : World) (l : Logger)
      → TellsLogger (with_appenders l (defines_of w l.appenders)) (logger_yaml yaml texts w l)
  logger-Tells w l =
      let tells = λ (o : Option (List LogAppenderDefine)).
        TellsLogger (with_appenders l o) (logger_yaml yaml texts w l) in
      elim (logger_yaml-read_define yaml texts reads laws w l) [
        | inl (h, e) ↦ subst tells (sym h) e
        | inr (as', n, h, e, r) ↦ subst tells (sym h) (n, e, r)
      ]

  logger_nodes-Tells :
      (w : World) (l : List (Bytes × ℕ))
      → TellsLoggers (loggers_define w l) (logger_nodes yaml texts w l)
  unfolding logger_nodes
  logger_nodes-Tells w [] = ([], refl, tt)
  logger_nodes-Tells w ((name, p) ∷ rest) =
      add_logger-Tells (with_appenders (w.logger_at p) (defines_of w (w.logger_at p).appenders))
        (loggers_define w rest) _ _ (logger-Tells w (w.logger_at p)) (logger_nodes-Tells w rest)

  elements_pushed : (nodes : List Node) → elements (pushed yaml texts nodes) ≡ nodes
  elements_pushed [] = reads.elements-null
  elements_pushed (n ∷ nodes) = laws.elements-sequence (n ∷ nodes)

  manager_text_read :
      (less : Bytes → Bytes → Bool) (w : World) (logs : List LogDefine)
      → TellsLoggers (some logs) (logger_nodes yaml texts w (in_order less w.loggers))
      → IsAscending (define_less less) logs
      → (s : Bytes) × (manager_yaml yaml texts less w ≡ ok s)
        × ((set_cast yaml (define_cast yaml texts) (define_less less)).from_str s ≡ ok logs)
  unfolding manager_yaml set_cast
  manager_text_read less w logs (nodes, e, stand) a = (
    emit (pushed yaml texts nodes),
    rw e refl,
    rw (laws.load-emit (pushed yaml texts nodes)) (
        rw (elements_pushed nodes) (
          insert_back yaml laws (define_cast yaml texts) (define_less less) nodes logs [] stand a)),
  )

  -- If each appender on the console has a formatter of its own, and the definitions that the
  -- loggers come up to ascend by their names, then `LoggerManager::toYamlString` gives a text, of
  -- which the cast of the configuration reads just these definitions.
  pub manager_yaml-reads :
      (less : Bytes → Bytes → Bool) (w : World) (logs : List LogDefine)
      → loggers_define w (in_order less w.loggers) ≡ some logs
      → IsAscending (define_less less) logs
      → (s : Bytes) × (manager_yaml yaml texts less w ≡ ok s)
        × ((set_cast yaml (define_cast yaml texts) (define_less less)).from_str s ≡ ok logs)
  manager_yaml-reads less w logs h a =
      manager_text_read less w logs
        (subst
          (λ (o : Option (List LogDefine)).
            TellsLoggers o (logger_nodes yaml texts w (in_order less w.loggers)))
          h (logger_nodes-Tells w (in_order less w.loggers)))
        a
