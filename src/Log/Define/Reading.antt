-- ===== src/Log/Define/Reading.antt =====
-- log.cpp: what `LexicalCast<std::string, LogDefine>` reads of the text of a `LogDefine`.
use mathlib.Core.List.{append_assoc, append-nil}
use fxk.Base.{
  true, false, Option, none, some, List, [], ◌∷◌, ◌++◌, map, ◌==◌, ==_iff, if◌then◌else◌, Bytes,
  bytes_eq, bytes_eq_iff, ok, ◌≡◌, ◌≢◌, refl, ap, ◌∙◌, inl, inr, arith, Bool-cases,
}
use fxk.Config.Cast.{Yaml}
use fxk.Config.Cast.RoundTrip.{IsYaml, keys, AreDistinct}
use fxk.Log.Level.{to_string, from_string-to_string}
use fxk.Log.Listener.{LogAppenderDefine, LogDefine}
use fxk.Log.Define.{
  YamlTexts, name_key, level_key, appenders_key, type_key, file_key, pattern_key, file_type,
  stdout_type, text_or_empty, read_appender, push, read_appenders, appenders_of, read_define,
  pattern_pairs, type_pairs, appender_node, appender_pairs, write_define,
}

abbrev pub find_pair : {Node : Type 0} → Bytes → List (Bytes × Node) → Option Node
find_pair k [] = none
find_pair k ((j, n) ∷ l) = if bytes_eq j k then some n else find_pair k l

-- The library: a map has under each key what it was made of, a text's node is read as the text, and
-- there are no elements in a node without keys.
pub record IsTexts (yaml : Yaml) (texts : YamlTexts yaml) : Type 0 where
  pub get-mapping :
      (l : List (Bytes × yaml.Node)) (k : Bytes)
      → AreDistinct (keys l)
      → texts.get (yaml.mapping l) k ≡ ok (find_pair k l)
  pub as_string-scalar : (s : Bytes) → texts.as_string (texts.scalar s) ≡ ok s
  pub elements-null : yaml.elements (yaml.mapping []) ≡ []

-- What of an appender is written: no appender of another type than 1 and 2, no file of a console.
abbrev pub written_one : LogAppenderDefine → Option LogAppenderDefine
written_one a =
    if a.type == 1 then some a else (if a.type == 2 then some (record a { file = [] }) else none)

abbrev pub written : List LogAppenderDefine → List LogAppenderDefine
written [] = []
written (a ∷ l) = elim (written_one a) [ none ↦ written l | some b ↦ b ∷ written l ]

pub differ : (k j : Bytes) → bytes_eq k j ≡ false → k ≢ j
differ k j h e = ground (arith, (bytes_eq_iff k j).1 e)

module _ (yaml : Yaml) (texts : YamlTexts yaml) (reads : IsTexts yaml texts) where
  open texts use {get, as_string, scalar}

  appender_keys-AreDistinct :
      (a : LogAppenderDefine) (p : Bytes)
      → AreDistinct (keys (type_pairs yaml texts a ++ pattern_pairs yaml texts p))
  unfolding bytes_eq
  appender_keys-AreDistinct a [] = elim (Bool-cases (a.type == 1)) [
    | inl one ↦ rw one ((differ type_key file_key refl, tt), (tt, tt))
    | inr other ↦ elim (Bool-cases (a.type == 2)) [
      | inl two ↦ rw other (rw two (tt, tt))
      | inr no_type ↦ rw other (rw no_type tt)
    ]
  ]
  appender_keys-AreDistinct a (c ∷ l) = elim (Bool-cases (a.type == 1)) [
    | inl one ↦ rw one (
      (differ type_key file_key refl, (differ type_key pattern_key refl, tt)),
      ((differ file_key pattern_key refl, tt), (tt, tt)),
    )
    | inr other ↦ elim (Bool-cases (a.type == 2)) [
      | inl two ↦ rw other (rw two ((differ type_key pattern_key refl, tt), (tt, tt)))
      | inr no_type ↦ rw other (rw no_type (tt, tt))
    ]
  ]

  -- The keys of an appender's node, looked up.
  appender_key :
      (a : LogAppenderDefine) (k : Bytes)
      → get (appender_node yaml texts a) k
        ≡ ok (find_pair k (type_pairs yaml texts a ++ pattern_pairs yaml texts a.pattern))
  unfolding appender_node
  appender_key a k = reads.get-mapping _ k (appender_keys-AreDistinct a a.pattern)

  pattern_found :
      (p : Bytes)
      → text_or_empty yaml texts (find_pair pattern_key (pattern_pairs yaml texts p)) ≡ ok p
  unfolding bytes_eq
  pattern_found [] = refl
  pattern_found (c ∷ l) = reads.as_string-scalar (c ∷ l)

  -- The definition that is read of a file appender's node, and of a console appender's.
  read_file :
      (a : LogAppenderDefine)
      → (a.type == 1) ≡ true
      → read_appender yaml texts (appender_node yaml texts a) ≡ ok (some a)
  unfolding read_appender bytes_eq
  read_file a one =
      let n = appender_node yaml texts a in
      let type_found : get n type_key ≡ ok (some (scalar file_type)) =
        appender_key a type_key ∙ rw one refl in
      let file_found : get n file_key ≡ ok (some (scalar a.file)) =
        appender_key a file_key ∙ rw one refl in
      let pattern_at : get n pattern_key
          ≡ ok (find_pair pattern_key (pattern_pairs yaml texts a.pattern)) =
        appender_key a pattern_key ∙ rw one refl in
      let is_one : a.type ≡ 1 = (==_iff a.type 1).0 one in
      rw type_found (
        rw (reads.as_string-scalar file_type) (
          rw file_found (
            rw (reads.as_string-scalar a.file)
              (rw pattern_at (rw (pattern_found a.pattern) (ground (arith, is_one)))))))

  read_stdout :
      (a : LogAppenderDefine)
      → (a.type == 1) ≡ false
      → (a.type == 2) ≡ true
      → read_appender yaml texts (appender_node yaml texts a) ≡ ok (some (record a { file = [] }))
  unfolding read_appender bytes_eq
  read_stdout a other two =
      let n = appender_node yaml texts a in
      let type_found : get n type_key ≡ ok (some (scalar stdout_type)) =
        appender_key a type_key ∙ rw other (rw two refl) in
      let pattern_at : get n pattern_key
          ≡ ok (find_pair pattern_key (pattern_pairs yaml texts a.pattern)) =
        appender_key a pattern_key ∙ rw other (rw two refl) in
      let is_two : a.type ≡ 2 = (==_iff a.type 2).0 two in
      rw type_found (
        rw (reads.as_string-scalar stdout_type)
          (rw pattern_at (rw (pattern_found a.pattern) (ground (arith, is_two)))))

  no_type_key : (p : Bytes) → find_pair type_key (pattern_pairs yaml texts p) ≡ none
  unfolding bytes_eq
  no_type_key [] = refl
  no_type_key (c ∷ l) = refl

  read_untyped :
      (a : LogAppenderDefine)
      → (a.type == 1) ≡ false
      → (a.type == 2) ≡ false
      → read_appender yaml texts (appender_node yaml texts a) ≡ ok none
  unfolding read_appender
  read_untyped a other no_type =
      let type_found : get (appender_node yaml texts a) type_key ≡ ok none =
        appender_key a type_key ∙ rw other (rw no_type (ap ok (no_type_key a.pattern))) in
      rw type_found refl

  read_appender-written :
      (a : LogAppenderDefine)
      → read_appender yaml texts (appender_node yaml texts a) ≡ ok (written_one a)
  read_appender-written a = elim (Bool-cases (a.type == 1)) [
    | inl one ↦ rw one (read_file a one)
    | inr other ↦ elim (Bool-cases (a.type == 2)) [
      | inl two ↦ rw other (rw two (read_stdout a other two))
      | inr no_type ↦ rw other (rw no_type (read_untyped a other no_type))
    ]
  ]

  push-written :
      (v l : List LogAppenderDefine) (b : Option LogAppenderDefine)
      → push yaml texts v b ++ written l ≡ v ++ elim b [ none ↦ written l | some c ↦ c ∷ written l ]
  push-written v l none = refl
  push-written v l (some c) = rw append_assoc refl

  read_appenders-written :
      (l v : List LogAppenderDefine)
      → read_appenders yaml texts (map (appender_node yaml texts) l) v ≡ ok (v ++ written l)
  unfolding read_appenders
  read_appenders-written [] v = rw append-nil refl
  read_appenders-written (a ∷ l) v = rw (read_appender-written a) (
      read_appenders-written l (push yaml texts v (written_one a))
      ∙ ap ok (push-written v l (written_one a)))

  define_keys-AreDistinct :
      (i : LogDefine)
      → AreDistinct (
          keys (
            (name_key, scalar i.name)
            ∷ (level_key, scalar (to_string i.level))
            ∷ appender_pairs yaml texts i.appenders))
  unfolding bytes_eq
  define_keys-AreDistinct i = distinct i.appenders
    where
      distinct :
          (l : List LogAppenderDefine)
          → AreDistinct (name_key ∷ level_key ∷ keys (appender_pairs yaml texts l))
      distinct [] = ((differ name_key level_key refl, tt), (tt, tt))
      distinct (a ∷ l) = (
        (differ name_key level_key refl, (differ name_key appenders_key refl, tt)),
        ((differ level_key appenders_key refl, tt), (tt, tt)),
      )

  module _ (laws : IsYaml yaml) where
    appenders_found :
        (l : List LogAppenderDefine)
        → appenders_of yaml texts (find_pair appenders_key (appender_pairs yaml texts l))
          ≡ ok (written l)
    unfolding bytes_eq
    appenders_found [] = refl
    appenders_found (a ∷ l) = rw laws.elements-sequence (read_appenders-written (a ∷ l) [])

    -- A `LogDefine` that is written as a text is read back from it with its name, its level, and its
    -- appenders in their order, but for two things that the text does not tell: appenders of another
    -- type than 1 and 2, and the file of an appender on the console.
    pub read_define-write_define :
        (i : LogDefine)
        → read_define yaml texts (write_define yaml texts i)
          ≡ ok (record i { appenders = written i.appenders })
    unfolding read_define write_define bytes_eq
    read_define-write_define i =
        let pairs =
          (name_key, scalar i.name)
          ∷ (level_key, scalar (to_string i.level))
          ∷ appender_pairs yaml texts i.appenders in
        let found = λ (k : Bytes). reads.get-mapping pairs k (define_keys-AreDistinct i) in
        rw (laws.load-emit (yaml.mapping pairs)) (
          rw (found name_key) (
            rw (reads.as_string-scalar i.name) (
              rw (found level_key) (
                rw (reads.as_string-scalar (to_string i.level)) (
                  rw (found appenders_key) (
                    rw (appenders_found i.appenders) (rw (from_string-to_string i.level) refl)))))))
