-- ===== src/Log/Define.antt =====
-- log.cpp: `LexicalCast` of `LogDefine`, to and from a YAML text. The YAML library's maps from
-- texts are an argument; what is printed on the console for a faulty appender is left out.
pub mod Reading
pub mod Whole
use fxk.Base.{
  ℕ, Bool, true, false, not, Option, none, some, List, [], ◌∷◌, ◌++◌, map, ◌==◌, if◌then◌else◌,
  Bytes, codes, bytes_eq, Result, ok, err, logic_error, ◌>>=◌, ◌≡◌,
}
use fxk.Config.Cast.{Yaml, LexicalCast}
use fxk.Log.Level.{to_string, from_string}
use fxk.Log.Listener.{LogAppenderDefine, LogDefine}

-- `n[key]`, `none` if it is not defined and an error for a node without keys, `n.as<std::string>()`, and the node of a text.
pub record YamlTexts (yaml : Yaml) : Type 0 where
  pub get : yaml.Node → Bytes → Result (Option yaml.Node)
  pub as_string : yaml.Node → Result Bytes
  pub scalar : Bytes → yaml.Node

abbrev pub name_key : Bytes
name_key = codes "name"

abbrev pub level_key : Bytes
level_key = codes "level"

abbrev pub appenders_key : Bytes
appenders_key = codes "appenders"

abbrev pub type_key : Bytes
type_key = codes "type"

abbrev pub file_key : Bytes
file_key = codes "file"

abbrev pub pattern_key : Bytes
pattern_key = codes "pattern"

abbrev pub file_type : Bytes
file_type = codes "FileLogAppender"

abbrev pub stdout_type : Bytes
stdout_type = codes "StdoutLogAppender"

module _ (yaml : Yaml) (texts : YamlTexts yaml) where
  open yaml use {Node, load, emit, sequence, elements, mapping}
  open texts use {get, as_string, scalar}

  -- The text under a key, or the empty one.
  abbrev pub text_or_empty : Option Node → Result Bytes
  text_or_empty none = ok []
  text_or_empty (some n) = as_string n

  abbrev pub file_appender : Node → Option Node → Result (Option LogAppenderDefine)
  file_appender a none = ok none
  file_appender a (some f) = do
    file ← as_string f
    p ← get a pattern_key
    pattern ← text_or_empty p
    ok (some (record { type = 1; pattern = pattern; file = file }))

  abbrev pub stdout_appender : Node → Result (Option LogAppenderDefine)
  stdout_appender a = do
    p ← get a pattern_key
    pattern ← text_or_empty p
    ok (some (record { type = 2; pattern = pattern; file = [] }))

  abbrev pub typed_appender : Node → Option Node → Result (Option LogAppenderDefine)
  typed_appender a none = ok none
  typed_appender a (some t) = do
    type ← as_string t
    if bytes_eq type file_type
        then (get a file_key >>= λ f. file_appender a f)
        else (if bytes_eq type stdout_type then stdout_appender a else ok none)

  -- One appender; `none` where the loop goes on without it.
  unfoldable pub read_appender : Node → Result (Option LogAppenderDefine)
  read_appender a = do t ← get a type_key; typed_appender a t

  abbrev pub push : List LogAppenderDefine → Option LogAppenderDefine → List LogAppenderDefine
  push l none = l
  push l (some a) = l ++ a ∷ []

  unfoldable pub read_appenders :
      List Node → List LogAppenderDefine → Result (List LogAppenderDefine)
  read_appenders [] l = ok l
  read_appenders (n ∷ nodes) l = do a ← read_appender n; read_appenders nodes (push l a)

  abbrev pub appenders_of : Option Node → Result (List LogAppenderDefine)
  appenders_of none = ok []
  appenders_of (some n) = read_appenders (elements n) []

  abbrev pub read_named : Node → Option Node → Result LogDefine
  read_named n none = err logic_error
  read_named n (some m) = do
    name ← as_string m
    l ← get n level_key
    level ← text_or_empty l
    nodes ← get n appenders_key
    appenders ← appenders_of nodes
    ok (record { name = name; level = from_string level; appenders = appenders })

  unfoldable pub read_define : Bytes → Result LogDefine
  read_define v = do n ← load v; name ← get n name_key; read_named n name

  abbrev pub pattern_pairs : Bytes → List (Bytes × Node)
  pattern_pairs [] = []
  pattern_pairs (c ∷ l) = (pattern_key, scalar (c ∷ l)) ∷ []

  abbrev pub type_pairs : LogAppenderDefine → List (Bytes × Node)
  type_pairs a =
      if a.type == 1
      then (type_key, scalar file_type) ∷ (file_key, scalar a.file) ∷ []
      else (if a.type == 2 then (type_key, scalar stdout_type) ∷ [] else [])

  unfoldable pub appender_node : LogAppenderDefine → Node
  appender_node a = mapping (type_pairs a ++ pattern_pairs a.pattern)

  abbrev pub appender_pairs : List LogAppenderDefine → List (Bytes × Node)
  appender_pairs [] = []
  appender_pairs (a ∷ l) = (appenders_key, sequence (map appender_node (a ∷ l))) ∷ []

  unfoldable pub write_define : LogDefine → Bytes
  write_define i = emit (
      mapping (
        (name_key, scalar i.name)
        ∷ (level_key, scalar (to_string i.level))
        ∷ appender_pairs i.appenders))

  unfoldable pub define_cast : LexicalCast LogDefine
  define_cast = record { from_str = read_define; to_str = λ i. ok (write_define i) }
