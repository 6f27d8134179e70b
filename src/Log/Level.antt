-- ===== src/Log/Level.antt =====
-- `LogLevel`: the levels that log.cpp names, and their texts. The numbers are those of log/log.h,
-- which has all these names; log.h lacks some and numbers the others upwards.
use fxk.Base.{
  ℕ, List, [], ◌∷◌, ◌≡◌, refl, ◌⊎◌, inl, inr, Bytes, codes, bytes_eq, bytes_eq_iff, Bool-cases,
  if◌then◌else◌,
}

pub data Level : Type 0 where
  fatal alert crit error warn notice info debug notset : Level

abbrev pub to_ℕ : Level → ℕ
to_ℕ fatal = 0
to_ℕ alert = 100
to_ℕ crit = 200
to_ℕ error = 300
to_ℕ warn = 400
to_ℕ notice = 500
to_ℕ info = 600
to_ℕ debug = 700
to_ℕ notset = 800

unfoldable pub to_string : Level → Bytes
to_string fatal = codes "FATAL"
to_string alert = codes "ALERT"
to_string crit = codes "CRIT"
to_string error = codes "ERROR"
to_string warn = codes "WARN"
to_string notice = codes "NOTICE"
to_string info = codes "INFO"
to_string debug = codes "DEBUG"
to_string notset = codes "NOTSET"

-- The tests of `FromString`, in order.
abbrev names : List (Bytes × Level)
names =
    (codes "fatal", fatal)
    ∷ (codes "alert", alert)
    ∷ (codes "crit", crit)
    ∷ (codes "error", error)
    ∷ (codes "warn", warn)
    ∷ (codes "notice", notice)
    ∷ (codes "info", info)
    ∷ (codes "debug", debug)
    ∷ (codes "FATAL", fatal)
    ∷ (codes "ALERT", alert)
    ∷ (codes "CRIT", crit)
    ∷ (codes "ERROR", error)
    ∷ (codes "WARN", warn)
    ∷ (codes "NOTICE", notice)
    ∷ (codes "INFO", info)
    ∷ (codes "DEBUG", debug)
    ∷ []

first_match : List (Bytes × Level) → Bytes → Level
first_match [] str = notset
first_match ((v, level) ∷ rest) str = if bytes_eq str v then level else first_match rest str

unfoldable pub from_string : Bytes → Level
unfolding first_match bytes_eq
from_string str = first_match names str

-- The same names in small letters.
pub lower_string : Level → Bytes
lower_string fatal = codes "fatal"
lower_string alert = codes "alert"
lower_string crit = codes "crit"
lower_string error = codes "error"
lower_string warn = codes "warn"
lower_string notice = codes "notice"
lower_string info = codes "info"
lower_string debug = codes "debug"
lower_string notset = codes "notset"

pub from_string-to_string : (l : Level) → from_string (to_string l) ≡ l
unfolding from_string to_string
from_string-to_string fatal = refl
from_string-to_string _ = refl

from_string-lower_string : (l : Level) → from_string (lower_string l) ≡ l
unfolding from_string lower_string
from_string-lower_string fatal = refl
from_string-lower_string _ = refl

-- A text is read as a level's name only by one of its two spellings.
abbrev pub IsName : Bytes → Level → Type 0
IsName str l = (str ≡ lower_string l) ⊎ (str ≡ to_string l)

abbrev AllNames : List (Bytes × Level) → Type 0
AllNames [] = Unit {0}
AllNames ((v, l) ∷ rest) = IsName v l × AllNames rest

first_match-IsName :
    (rest : List (Bytes × Level)) (str : Bytes)
    → AllNames rest
    → (first_match rest str ≡ notset) ⊎ IsName str (first_match rest str)
unfolding first_match
first_match-IsName [] str h = inl refl
first_match-IsName ((v, l) ∷ rest) str h = elim (Bool-cases (bytes_eq str v)) [
  | inl e ↦ rw e (inr (rw ((bytes_eq_iff str v).0 e) h.0))
  | inr e ↦ rw e (first_match-IsName rest str h.1)
]

names-AllNames : AllNames names
unfolding lower_string to_string
names-AllNames = (
  inl refl,
  (
    inl refl,
    (
      inl refl,
      (
        inl refl,
        (
          inl refl,
          (
            inl refl,
            (
              inl refl,
              (
                inl refl,
                (
                  inr refl,
                  (
                    inr refl,
                    (inr refl, (inr refl, (inr refl, (inr refl, (inr refl, (inr refl, tt)))))),
                  ),
                ),
              ),
            ),
          ),
        ),
      ),
    ),
  ),
)

-- Reading back a level's text, in capitals or in small letters, gives the level; and a text that
-- is read as a level other than `NOTSET` is one of that level's two spellings.
pub from_string_lem :
    (l : Level) (str : Bytes)
    → (from_string (to_string l) ≡ l)
      × (from_string (lower_string l) ≡ l)
      × ((from_string str ≡ notset) ⊎ IsName str (from_string str))
unfolding from_string
from_string_lem l str = (
  from_string-to_string l,
  from_string-lower_string l,
  unfold from_string in first_match-IsName names str names-AllNames,
)
