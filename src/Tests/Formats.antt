-- ===== src/Tests/Formats.antt =====
-- A format that serves as YAML, and the appenders of a small configuration.
use fxk.Base.{
  ℕ, zero, suc, Bool, true, false, List, [], ◌∷◌, ◌≡◌, refl, ap, ◌∙◌, ltb, if◌then◌else◌, Bytes,
  codes, ok,
}
use fxk.Config.Cast.{Yaml}
use fxk.Config.Cast.RoundTrip.{IsYaml}
use fxk.Log.Listener.{LogAppenderDefine}
use fxk.Log.Define.{YamlTexts}
use fxk.Log.Define.Reading.{IsTexts, find_pair}

-- A format that serves as YAML: a node is its text, and an element is written with every
-- code one higher and a zero behind it.
abbrev raise : Bytes → Bytes → Bytes
raise [] rest = zero ∷ rest
raise (c ∷ s) rest = suc c ∷ raise s rest

abbrev join : List Bytes → Bytes
join [] = []
join (s ∷ l) = raise s (join l)

abbrev push : ℕ → List Bytes → List Bytes
push c [] = (c ∷ []) ∷ []
push c (s ∷ l) = (c ∷ s) ∷ l

abbrev split : Bytes → List Bytes
split [] = []
split (zero ∷ s) = [] ∷ split s
split (suc c ∷ s) = push c (split s)

split-raise : (s rest : Bytes) → split (raise s rest) ≡ s ∷ split rest
split-raise [] rest = refl
split-raise (c ∷ s) rest = ap (push c) (split-raise s rest)

split-join : (l : List Bytes) → split (join l) ≡ l
split-join [] = refl
split-join (s ∷ l) = split-raise s (join l) ∙ ap (◌∷◌ s) (split-join l)

abbrev unpair : List Bytes → List (Bytes × Bytes)
unpair [] = []
unpair (k ∷ []) = []
unpair (k ∷ v ∷ l) = (k, v) ∷ unpair l

abbrev flatten : List (Bytes × Bytes) → List Bytes
flatten [] = []
flatten ((k, v) ∷ l) = k ∷ v ∷ flatten l

unpair-flatten : (l : List (Bytes × Bytes)) → unpair (flatten l) ≡ l
unpair-flatten [] = refl
unpair-flatten ((k, v) ∷ l) = ap (◌∷◌ (k, v)) (unpair-flatten l)

abbrev pub yaml : Yaml
yaml = record {
  Node = Bytes;
  load = λ s. ok s;
  emit = λ n. n;
  sequence = join;
  elements = split;
  mapping = λ l. join (flatten l);
  pairs = λ n. unpair (split n);
}

pub yaml-IsYaml : IsYaml yaml
yaml-IsYaml = record {
  load-emit = λ n. refl;
  elements-sequence = split-join;
  pairs-mapping = λ l d. ap unpair (split-join (flatten l)) ∙ unpair-flatten l;
}

-- The order of `std::string`.
abbrev pub text_less : Bytes → Bytes → Bool
text_less [] [] = false
text_less [] (d ∷ t) = true
text_less (c ∷ s) [] = false
text_less (c ∷ s) (d ∷ t) =
    let rest = text_less s t in if ltb c d then true else if ltb d c then false else rest

abbrev pub texts : YamlTexts yaml
texts = record {
  get = λ n k. ok (find_pair k (yaml.pairs n));
  as_string = λ n. ok n;
  scalar = λ s. s;
}

pub texts-IsTexts : IsTexts yaml texts
texts-IsTexts = record {
  get-mapping = λ l k d.
      ap (λ (m : List (Bytes × Bytes)). ok (find_pair k m)) (yaml-IsYaml.pairs-mapping l d);
  as_string-scalar = λ s. refl;
  elements-null = refl;
}

abbrev pub to_file : LogAppenderDefine
to_file = record { type = 1; pattern = codes "%m"; file = codes "a.log" }

abbrev pub to_console : LogAppenderDefine
to_console = record { type = 2; pattern = []; file = [] }
