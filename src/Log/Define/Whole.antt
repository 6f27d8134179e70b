-- ===== src/Log/Define/Whole.antt =====
-- log.cpp and config/config.cpp: the whole configuration of the loggers, a `std::set<LogDefine>`.
use fxk.Base.{Bool, List, [], ◌∷◌, Bytes, All, ok, ◌>>=◌, ◌≡◌, refl, ap, ◌∙◌}
use fxk.Config.Cast.{Yaml, set_cast}
use fxk.Config.Cast.RoundTrip.{IsYaml, IsSafe, IsAscending, set_cast-IsSafe}
use fxk.Log.Listener.{LogDefine}
use fxk.Log.Define.{YamlTexts, write_define, define_cast}
use fxk.Log.Define.Reading.{IsTexts, written, read_define-write_define}

-- All that the definition holds of its appenders has its place in the text.
abbrev pub IsComplete : LogDefine → Type 0
IsComplete i = written i.appenders ≡ i.appenders

-- `LogDefine::operator<`, by the names.
abbrev pub define_less : (Bytes → Bytes → Bool) → LogDefine → LogDefine → Bool
define_less less i oth = less i.name oth.name

module _ (yaml : Yaml) (texts : YamlTexts yaml) (reads : IsTexts yaml texts)
    (laws : IsYaml yaml) where
  IsComplete-IsSafe : (i : LogDefine) → IsComplete i → IsSafe yaml (define_cast yaml texts) i
  unfolding define_cast write_define
  IsComplete-IsSafe i complete = (
    write_define yaml texts i,
    _,
    refl,
    laws.load-emit _,
    read_define-write_define yaml texts reads laws i
        ∙ ap (λ (l : List _). ok (record i { appenders = l })) complete,
  )

  All-IsSafe :
      (l : List LogDefine) → All IsComplete l → All (IsSafe yaml (define_cast yaml texts)) l
  All-IsSafe [] h = tt
  All-IsSafe (i ∷ l) h = (IsComplete-IsSafe i h.0, All-IsSafe l h.1)

  -- A configuration whose definitions ascend by their names, and whose appenders are files, or
  -- consoles without a file, is written as one text from which it is read back unchanged.
  pub logs_cast-reads :
      (less : Bytes → Bytes → Bool) (logs : List LogDefine)
      → IsAscending (define_less less) logs
      → All IsComplete logs
      → ((set_cast yaml (define_cast yaml texts) (define_less less)).to_str logs >>= λ s.
          (set_cast yaml (define_cast yaml texts) (define_less less)).from_str s)
        ≡ ok logs
  logs_cast-reads less logs a h =
      (set_cast-IsSafe yaml laws (define_cast yaml texts) (define_less less) logs a
        (All-IsSafe logs h)).1
