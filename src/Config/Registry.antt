-- ===== src/Config/Registry.antt =====
-- config/config.cpp: `Config::Lookup` and the map of all configuration variables. A variable is
-- the place it is made at, with the type `ConfigVar<T>` it is made for, a number.
pub mod Names
use fxk.Base.{
  ℕ, Bool, true, false, not, ◌&&◌, ◌||◌, Option, none, some, List, [], ◌∷◌, ◌==◌, if◌then◌else◌,
  Bytes, codes, bytes_eq, Result, ok, err, invalid_argument,
}

pub record Var : Type 0 where
  pub type_id : ℕ
  pub place : ℕ

abbrev pub Datas : Type 0
Datas = List (Bytes × Var)

abbrev pub valid_characters : Bytes
valid_characters = codes "abcdefghikjlmnopqrstuvwxyz._012345678"

abbrev pub any_eq : ℕ → Bytes → Bool
any_eq c [] = false
any_eq c (d ∷ s) = c == d || any_eq c s

-- `name.find_first_not_of(...) == std::string::npos`
unfoldable pub is_valid_name : Bytes → Bool
is_valid_name [] = true
is_valid_name (c ∷ s) = any_eq c valid_characters && is_valid_name s

unfoldable pub find_data : Bytes → Datas → Option Var
unfolding bytes_eq
find_data name [] = none
find_data name ((k, v) ∷ l) = if bytes_eq name k then some v else find_data name l

-- `std::dynamic_pointer_cast<ConfigVar<T>>`
abbrev pub pointer_cast : ℕ → Var → Option ℕ
pointer_cast type_id v = if v.type_id == type_id then some v.place else none

-- `GetDatas()[name] = v` for a name that is not there, `fresh` the place of the new variable.
unfoldable pub lookup_or_make : Bytes → ℕ → ℕ → Datas → Result (Option ℕ × Datas)
unfolding find_data is_valid_name
lookup_or_make name type_id fresh datas = elim (find_data name datas) [
  | some v ↦ ok (pointer_cast type_id v, datas)
  | none ↦
      if not (is_valid_name name)
      then err invalid_argument
      else ok (some fresh, (name, record { type_id = type_id; place = fresh }) ∷ datas)
]

unfoldable pub lookup : Bytes → ℕ → Datas → Option ℕ
unfolding find_data
lookup name type_id datas = elim (find_data name datas) [
  | none ↦ none
  | some v ↦ pointer_cast type_id v
]
