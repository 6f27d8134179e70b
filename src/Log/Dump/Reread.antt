-- ===== src/Log/Dump/Reread.antt =====
-- log.cpp: what `toYamlString` of a logger says, read as the configuration of a logger.
use mathlib.Core.List.{append_assoc, append-nil}
use fxk.Base.{
  ℕ, from_option, Option, none, some, List, [], ◌∷◌, ◌++◌, Bytes, bytes_eq, Result, ok, err,
  null_pointer, ◌>>=◌, ◌≡◌, refl, ap, ◌∙◌, ◌⊎◌, inl, inr,
}
use fxk.Config.Cast.{Yaml}
use fxk.Config.Cast.RoundTrip.{IsYaml, keys, AreDistinct}
use fxk.Log.Level.{to_string, from_string-to_string}
use fxk.Log.Pattern.{LogFormatter}
use fxk.Log.Appender.{Kind, stdout_log, file_log, LogAppender, get_formatter}
use fxk.Log.Logger.{Logger, World}
use fxk.Log.Listener.{LogAppenderDefine}
use fxk.Log.Define.{
  YamlTexts, name_key, level_key, appenders_key, type_key, file_key, pattern_key, file_type,
  stdout_type, read_appender, read_appenders, appenders_of, read_define,
}
use fxk.Log.Define.Reading.{IsTexts, find_pair, differ}
use fxk.Log.Dump.{kind_yaml, appender_yaml, appender_nodes, appenders_pair, logger_yaml}

-- The definition of an appender, `none` for one on the console without a formatter of its own.
abbrev console_define : Option LogFormatter → Option LogAppenderDefine
console_define none = none
console_define (some f) = some (record { type = 2; pattern = f.pattern; file = [] })

abbrev kind_define : Kind → LogAppender → Option LogAppenderDefine
kind_define stdout_log a = console_define a.formatter
kind_define (file_log f) a =
    some (record { type = 1; pattern = (get_formatter a).pattern; file = f.filename })

abbrev pub define_of : LogAppender → Option LogAppenderDefine
define_of a = kind_define a.kind a

abbrev pub cons_both :
    Option LogAppenderDefine → Option (List LogAppenderDefine) → Option (List LogAppenderDefine)
cons_both none l = none
cons_both (some a) none = none
cons_both (some a) (some l) = some (a ∷ l)

-- The definitions of all appenders of a list, if each has one.
abbrev pub defines_of : World → List ℕ → Option (List LogAppenderDefine)
defines_of w [] = some []
defines_of w (p ∷ ps) = cons_both (define_of (w.appender_at p)) (defines_of w ps)

module _ (yaml : Yaml) (texts : YamlTexts yaml) (reads : IsTexts yaml texts)
    (laws : IsYaml yaml) where
  open yaml use {Node, load, emit, sequence, mapping}
  open texts use {get, as_string, scalar}

  -- A text is one of which the appender's definition is read.
  abbrev TellsAppender : Option LogAppenderDefine → Result Bytes → Type 0
  TellsAppender none r = r ≡ err null_pointer
  TellsAppender (some d) r =
      (n : Node) × (r ≡ ok (emit n)) × (read_appender yaml texts n ≡ ok (some d))

  read_console :
      (p : Bytes)
      → read_appender yaml texts
          (mapping ((type_key, scalar stdout_type) ∷ (pattern_key, scalar p) ∷ []))
        ≡ ok (some (record { type = 2; pattern = p; file = [] }))
  unfolding read_appender bytes_eq
  read_console p =
      let pairs = (type_key, scalar stdout_type) ∷ (pattern_key, scalar p) ∷ [] in
      let found = λ (k : Bytes).
        reads.get-mapping pairs k ((differ type_key pattern_key refl, tt), (tt, tt)) in
      rw (found type_key) (
        rw (reads.as_string-scalar stdout_type)
          (rw (found pattern_key) (rw (reads.as_string-scalar p) refl)))

  read_file :
      (f p : Bytes)
      → read_appender yaml texts (
          mapping
            ((type_key, scalar file_type) ∷ (file_key, scalar f) ∷ (pattern_key, scalar p) ∷ []))
        ≡ ok (some (record { type = 1; pattern = p; file = f }))
  unfolding read_appender bytes_eq
  read_file f p =
      let pairs =
        (type_key, scalar file_type) ∷ (file_key, scalar f) ∷ (pattern_key, scalar p) ∷ [] in
      let found = λ (k : Bytes). reads.get-mapping pairs k (
        (differ type_key file_key refl, (differ type_key pattern_key refl, tt)),
        ((differ file_key pattern_key refl, tt), (tt, tt)),
      ) in
      rw (found type_key) (
        rw (reads.as_string-scalar file_type) (
          rw (found file_key) (
            rw (reads.as_string-scalar f)
              (rw (found pattern_key) (rw (reads.as_string-scalar p) refl)))))

  console-Tells :
      (own : Option LogFormatter)
      → TellsAppender (console_define own) (
          from_option own null_pointer >>= λ f.
          ok (
            emit (mapping ((type_key, scalar stdout_type) ∷ (pattern_key, scalar f.pattern) ∷ []))))
  console-Tells none = refl
  console-Tells (some f) = (_, refl, read_console f.pattern)

  kind_yaml-Tells :
      (k : Kind) (a : LogAppender) → TellsAppender (kind_define k a) (kind_yaml yaml texts k a)
  kind_yaml-Tells stdout_log a = console-Tells a.formatter
  kind_yaml-Tells (file_log f) a = (_, refl, read_file f.filename (get_formatter a).pattern)

  -- Nodes are such that all the definitions are read of them.
  abbrev TellsAppenders : Option (List LogAppenderDefine) → Result (List Node) → Type 0
  TellsAppenders none r = r ≡ err null_pointer
  TellsAppenders (some l) r =
      (nodes : List Node) × (r ≡ ok nodes)
      × ((v : List LogAppenderDefine) → read_appenders yaml texts nodes v ≡ ok (v ++ l))

  add_appender-Tells :
      (d : Option LogAppenderDefine) (l : Option (List LogAppenderDefine)) (r : Result Bytes)
      (rs : Result (List Node))
      → TellsAppender d r
      → TellsAppenders l rs
      → TellsAppenders (cons_both d l) (r >>= λ s. load s >>= λ n. rs >>= λ nodes. ok (n ∷ nodes))
  unfolding read_appenders
  add_appender-Tells none l r rs h hs = rw h refl
  add_appender-Tells (some d) none r rs (n, e, reads_d) hs =
      rw e (rw (laws.load-emit n) (rw hs refl))
  add_appender-Tells (some d) (some l) r rs (n, e, reads_d) (nodes, es, reads_l) = (
    n ∷ nodes,
    rw e (rw (laws.load-emit n) (rw es refl)),
    λ v. rw reads_d (reads_l (v ++ d ∷ []) ∙ ap ok (append_assoc v (d ∷ []) l)),
  )

  appender_nodes-Tells :
      (w : World) (ps : List ℕ) → TellsAppenders (defines_of w ps) (appender_nodes yaml texts w ps)
  unfolding appender_nodes appender_yaml read_appenders
  appender_nodes-Tells w [] = ([], refl, λ v. rw append-nil refl)
  appender_nodes-Tells w (p ∷ ps) =
      add_appender-Tells (define_of (w.appender_at p)) (defines_of w ps) _ _
        (kind_yaml-Tells (w.appender_at p).kind (w.appender_at p)) (appender_nodes-Tells w ps)

  abbrev logger_pairs : Logger → List Node → List (Bytes × Node)
  logger_pairs l nodes =
      (name_key, scalar l.name)
      ∷ (level_key, scalar (to_string l.level))
      ∷ appenders_pair yaml texts nodes

  logger_keys-AreDistinct :
      (l : Logger) (nodes : List Node) → AreDistinct (keys (logger_pairs l nodes))
  unfolding bytes_eq
  logger_keys-AreDistinct l [] = ((differ name_key level_key refl, tt), (tt, tt))
  logger_keys-AreDistinct l (n ∷ nodes) = (
    (differ name_key level_key refl, (differ name_key appenders_key refl, tt)),
    ((differ level_key appenders_key refl, tt), (tt, tt)),
  )

  appenders_found :
      (nodes : List Node)
      → appenders_of yaml texts (find_pair appenders_key (appenders_pair yaml texts nodes))
        ≡ read_appenders yaml texts nodes []
  unfolding bytes_eq read_appenders
  appenders_found [] = refl
  appenders_found (n ∷ nodes) = rw laws.elements-sequence refl

  logger_node_read :
      (l : Logger) (nodes : List Node) (as' : List LogAppenderDefine)
      → read_appenders yaml texts nodes [] ≡ ok as'
      → read_define yaml texts (emit (mapping (logger_pairs l nodes)))
        ≡ ok (record { name = l.name; level = l.level; appenders = as' })
  unfolding read_define bytes_eq
  logger_node_read l nodes as' h =
      let found = λ (k : Bytes).
        reads.get-mapping (logger_pairs l nodes) k (logger_keys-AreDistinct l nodes) in
      rw (laws.load-emit (mapping (logger_pairs l nodes))) (
        rw (found name_key) (
          rw (reads.as_string-scalar l.name) (
            rw (found level_key) (
              rw (reads.as_string-scalar (to_string l.level)) (
                rw (found appenders_key)
                  (rw (appenders_found nodes) (rw h (rw (from_string-to_string l.level) refl))))))))

  logger_yaml_cases :
      (w : World) (l : Logger) (o : Option (List LogAppenderDefine))
      → TellsAppenders o (appender_nodes yaml texts w l.appenders)
      → ((o ≡ none) × (logger_yaml yaml texts w l ≡ err null_pointer))
        ⊎ ((as' : List LogAppenderDefine) × (n : Node) × (o ≡ some as')
            × (logger_yaml yaml texts w l ≡ ok (emit n))
            × (read_define yaml texts (emit n)
                ≡ ok (record { name = l.name; level = l.level; appenders = as' })))
  unfolding logger_yaml
  logger_yaml_cases w l none h = inl (refl, rw h refl)
  logger_yaml_cases w l (some as') (nodes, e, r) =
      inr (as', _, refl, rw e refl, logger_node_read l nodes as' (r []))

  -- `Logger::toYamlString` gives the text of a node, of which the cast of the configuration reads the logger's
  -- name, its level and the definitions of its appenders in their order, if each appender on the
  -- console has a formatter of its own. Otherwise it follows a null pointer.
  pub logger_yaml-read_define :
      (w : World) (l : Logger)
      → ((defines_of w l.appenders ≡ none) × (logger_yaml yaml texts w l ≡ err null_pointer))
        ⊎ ((as' : List LogAppenderDefine) × (n : Node) × (defines_of w l.appenders ≡ some as')
            × (logger_yaml yaml texts w l ≡ ok (emit n))
            × (read_define yaml texts (emit n)
                ≡ ok (record { name = l.name; level = l.level; appenders = as' })))
  logger_yaml-read_define w l =
      logger_yaml_cases w l (defines_of w l.appenders) (appender_nodes-Tells w l.appenders)
