-- ===== src/Tests/ConfigTests.antt =====
-- Configuration variables on concrete inputs.
use mathlib.Core.Quot
use fxk.Base.{
  ℕ, ◌+◌, ◌-◌, true, false, none, some, List, [], ◌∷◌, ◌++◌, ◌≡◌, ◌≢◌, refl, ap, ◌⊎◌, arith, ◌==◌,
  ==_iff, Bytes, codes, bytes_eq, Result, ok, err, invalid_argument, ◌>>=◌, All,
}
use fxk.Config.Variable.{Listener, ConfigVar, add_listener, set_value}
use fxk.Config.Variable.Listeners.{
  Heard, IsListed, Subscribes, add_listener-Subscribes, Records, heard_by, set_value-tells,
}
use fxk.Config.Cast.{LexicalCast, set_cast}
use fxk.Config.Cast.RoundTrip.{IsSafe}
use fxk.Config.Cast.Unordered.{HashContainer, AreNew, same_name, unordered_map_cast}
use fxk.Config.Cast.Reordered.{unordered_map_cast-reads}
use fxk.Log.Level.{info, debug}
use fxk.Log.Listener.{LogDefine}
use fxk.Log.Define.{define_cast, read_define, write_define}
use fxk.Log.Define.Reading.{read_define-write_define}
use fxk.Log.Define.Whole.{define_less, logs_cast-reads}
use fxk.Config.Registry.{Var, pointer_cast, Datas, is_valid_name, find_data, lookup_or_make}
use fxk.Config.Registry.Names.{AreNamed, LooksUp, lookup_or_make-LooksUp}
use fxk.Tests.Formats.{yaml, yaml-IsYaml, texts, texts-IsTexts, text_less, to_file, to_console}

-- A listener that writes down what it hears, under its key, and one that throws.
abbrev records : ℕ → Listener (Heard ℕ) ℕ
records key old new w = (w ++ (key, old, new) ∷ [], false)

abbrev throws : Listener (Heard ℕ) ℕ
throws old new w = (w, true)

abbrev port : ConfigVar (Heard ℕ) ℕ
port = record {
  name = codes "port";
  description = [];
  val = 80;
  cbs = (1, records 1) ∷ (4, records 4) ∷ [];
}

abbrev guarded : ConfigVar (Heard ℕ) ℕ
guarded = record port { cbs = (1, records 1) ∷ (2, throws) ∷ (4, records 4) ∷ [] }

port-IsListed : IsListed 4 port.cbs
port-IsListed = (omega arith, (omega arith, tt), (omega arith, tt, tt))

port-Records : All Records port.cbs
port-Records = ((λ old new w. refl), ((λ old new w. refl), tt))

set_value-run :
    set_value ◌==◌ 8080 port []
    ≡ (record port { val = 8080 }, (1, 80, 8080) ∷ (4, 80, 8080) ∷ [], false)
unfolding set_value
set_value-run = refl

-- The listeners behind one that throws are not told, and the value stays.
set_value_throws-run : set_value ◌==◌ 8080 guarded [] ≡ (guarded, (1, 80, 8080) ∷ [], true)
unfolding set_value
set_value_throws-run = refl

add_listener-Subscribes_example :
    (id : ℕ) × (var' : ConfigVar (Heard ℕ) ℕ) × (add_listener (records 9) 4 port ≡ (id, id, var'))
    × Subscribes (records 9) 4 port id var'
add_listener-Subscribes_example =
    add_listener-Subscribes (records 9) 4 port port-IsListed (omega arith)

set_value-tells_example :
    ((◌≡◌ {A = ℕ} 8080 80) × (set_value ◌==◌ 8080 port [] ≡ (port, [], false)))
    ⊎ ((◌≢◌ {A = ℕ} 8080 80)
        × (set_value ◌==◌ 8080 port []
            ≡ (record port { val = 8080 }, [] ++ heard_by 80 8080 port.cbs, false)))
set_value-tells_example = set_value-tells ◌==◌ ==_iff 8080 port [] port-Records

-- Reads a single digit.
abbrev digit : Bytes → Result ℕ
digit [] = err invalid_argument
digit (c ∷ s) = ok (c - 48)

-- Numbers up to 9.
abbrev digits : LexicalCast ℕ
digits = record { from_str = digit; to_str = λ n. ok ((n + 48) ∷ []) }

digit-IsSafe : (n : ℕ) → IsSafe yaml digits n
digit-IsSafe n = ((n + 48) ∷ [], (n + 48) ∷ [], refl, refl, ap ok (omega arith))

abbrev ports : List ℕ
ports = 3 ∷ 5 ∷ []

ports-AreSafe : All (IsSafe yaml digits) ports
ports-AreSafe = (digit-IsSafe 3, (digit-IsSafe 5, tt))

abbrev limits : List (Bytes × ℕ)
limits = (codes "a", 3) ∷ (codes "b", 5) ∷ []

limits-AreNew : AreNew (same_name yaml digits) [] limits
unfolding bytes_eq
limits-AreNew = (refl, (refl, tt))

-- An iteration of `std::unordered_map` from the entry that came first on.
abbrev in_order : List (Bytes × ℕ) → List (Bytes × ℕ)
in_order l = l

unordered_map_cast-reads_example :
    (w : List (Bytes × ℕ)) × (((unordered_map_cast yaml digits in_order).to_str limits >>= λ s.
    (unordered_map_cast yaml digits in_order).from_str s)
      ≡ ok w)
    × (◌≡◌ {A = HashContainer (same_name yaml digits)} (Quot.mk w) (Quot.mk limits))
unordered_map_cast-reads_example =
    unordered_map_cast-reads yaml yaml-IsYaml digits in_order limits
      (record { same = λ l x. refl; each_once = λ l a. a }) limits-AreNew
      (digit-IsSafe 3, (digit-IsSafe 5, tt))

-- With a file that a console has no use for, and a third appender of no type.
abbrev system : LogDefine
system = record {
  name = codes "system";
  level = info;
  appenders =
      to_file ∷ record to_console { file = codes "b.log" } ∷ record to_console { type = 0 } ∷ [];
}

read_define-write_define_example :
    read_define yaml texts (write_define yaml texts system)
    ≡ ok (record system { appenders = to_file ∷ to_console ∷ [] })
read_define-write_define_example =
    read_define-write_define yaml texts texts-IsTexts yaml-IsYaml system

abbrev logs : List LogDefine
logs =
    record { name = codes "a"; level = debug; appenders = [] }
    ∷ record { name = codes "b"; level = info; appenders = to_file ∷ to_console ∷ [] }
    ∷ []

logs_cast-reads_example :
    ((set_cast yaml (define_cast yaml texts) (define_less text_less)).to_str logs >>= λ s.
    (set_cast yaml (define_cast yaml texts) (define_less text_less)).from_str s)
    ≡ ok logs
logs_cast-reads_example =
    logs_cast-reads yaml texts texts-IsTexts yaml-IsYaml text_less logs
      (((refl, refl), tt), (tt, tt)) (refl, (refl, tt))

abbrev datas : Datas
datas = (codes "tcp.port", record { type_id = 1; place = 0 }) ∷ []

datas-AreNamed : AreNamed datas
unfolding is_valid_name
datas-AreNamed = (refl, tt)

lookup_or_make-run :
    (lookup_or_make (codes "tcp.port") 1 5 datas ≡ ok (some 0, datas))
    × (lookup_or_make (codes "tcp.port") 2 5 datas ≡ ok (none, datas))
    × (lookup_or_make (codes "Tcp") 1 5 datas ≡ err invalid_argument)
unfolding lookup_or_make bytes_eq
lookup_or_make-run = (refl, refl, refl)

lookup_or_make-LooksUp_example :
    ((find_data (codes "udp") datas ≡ none)
      × (is_valid_name (codes "udp") ≡ false)
      × (lookup_or_make (codes "udp") 1 5 datas ≡ err invalid_argument))
    ⊎ ((find_data (codes "udp") datas ≡ none)
        × (is_valid_name (codes "udp") ≡ true)
        × ((datas' : Datas) × (lookup_or_make (codes "udp") 1 5 datas ≡ ok (some 5, datas'))
            × LooksUp (codes "udp") 1 datas (some 5) datas'))
    ⊎ ((x : Var) × (find_data (codes "udp") datas ≡ some x)
        × (lookup_or_make (codes "udp") 1 5 datas ≡ ok (pointer_cast 1 x, datas))
        × LooksUp (codes "udp") 1 datas (pointer_cast 1 x) datas)
lookup_or_make-LooksUp_example = lookup_or_make-LooksUp (codes "udp") 1 5 datas datas-AreNamed

udp_is_valid : is_valid_name (codes "udp") ≡ true
unfolding is_valid_name
udp_is_valid = refl

port9_is_new : find_data (codes "port9") datas ≡ none
unfolding find_data bytes_eq
port9_is_new = refl
