-- ===== src/Config/Variable.antt =====
-- config/config.cpp: `ConfigVar<T>`, its value and its listeners. A listener is a function on the
-- program's state that also says whether it has thrown an exception. The locks and the log
-- messages are left out.
pub mod Listeners
use fxk.Base.{
  ℕ, ◌+◌, ◌%◌, ◌^◌, Bool, true, false, Option, none, some, List, [], ◌∷◌, ltb, ◌==◌, if◌then◌else◌,
  Bytes, Result, ok, err,
}

abbrev pub Listener : Type 0 → Type 0 → Type 0
Listener W A = A → A → W → W × Bool

pub record ConfigVar (W A : Type 0) : Type 0 where
  pub name : Bytes
  pub description : Bytes
  pub val : A
  pub cbs : List (ℕ × Listener W A)

-- `::tolower` in the "C" locale.
abbrev pub to_lower : ℕ → ℕ
to_lower c = if ltb 64 c then (if ltb c 91 then c + 32 else c) else c

unfoldable pub lower_name : Bytes → Bytes
lower_name [] = []
lower_name (c ∷ s) = to_lower c ∷ lower_name s

module _ {W A : Type 0} where
  unfoldable pub new_var : Bytes → A → Bytes → ConfigVar W A
  unfolding lower_name
  new_var name default_value description = record {
    name = lower_name name;
    description = description;
    val = default_value;
    cbs = [];
  }

  -- `std::map`: ascending keys.
  pub assign : ℕ → Listener W A → List (ℕ × Listener W A) → List (ℕ × Listener W A)
  assign key cb [] = (key, cb) ∷ []
  assign key cb ((k, x) ∷ l) =
      if ltb key k
      then (key, cb) ∷ (k, x) ∷ l
      else (if key == k then (k, cb) ∷ l else (k, x) ∷ assign key cb l)

  pub erase : ℕ → List (ℕ × Listener W A) → List (ℕ × Listener W A)
  erase key [] = []
  erase key ((k, x) ∷ l) = if key == k then l else (k, x) ∷ erase key l

  pub find : ℕ → List (ℕ × Listener W A) → Option (Listener W A)
  find key [] = none
  find key ((k, x) ∷ l) = if key == k then some x else find key l

  -- The counter `s_fun_id` is shared by the variables of one type.
  unfoldable pub add_listener : Listener W A → ℕ → ConfigVar W A → ℕ × ℕ × ConfigVar W A
  unfolding assign
  add_listener cb fun_id var =
      let id = (fun_id + 1) % 2 ^ 64 in (id, id, record var { cbs = assign id cb var.cbs })

  unfoldable pub del_listener : ℕ → ConfigVar W A → ConfigVar W A
  unfolding erase
  del_listener key var = record var { cbs = erase key var.cbs }

  unfoldable pub get_listener : ℕ → ConfigVar W A → Option (Listener W A)
  unfolding find
  get_listener key var = find key var.cbs

  unfoldable pub clear_listener : ConfigVar W A → ConfigVar W A
  clear_listener var = record var { cbs = [] }

  -- The listeners in turn, up to the first that throws.
  pub notify : A → A → List (ℕ × Listener W A) → W → W × Bool
  notify old new [] w = (w, false)
  notify old new ((k, cb) ∷ l) w =
      let (w', threw) = cb old new w in if threw then (w', true) else notify old new l w'

  module _ (eq : A → A → Bool) where
    -- The variable and the state after the call, and whether it throws.
    unfoldable pub set_value : A → ConfigVar W A → W → ConfigVar W A × W × Bool
    unfolding notify
    set_value v var w =
        if eq v var.val
        then (var, w, false)
        else (let (w', threw) = notify var.val v var.cbs w in
            if threw then (var, w', true) else (record var { val = v }, w', false))

    -- `from_str` is the cast, which may throw. What is caught is only logged.
    unfoldable pub from_string :
        (Bytes → Result A) → Bytes → ConfigVar W A → W → ConfigVar W A × W × Bool
    unfolding set_value
    from_string from_str val var w = elim (from_str val) [
      | err e ↦ (var, w, false)
      | ok v ↦ (let (var', w', threw) = set_value v var w in (var', w', false))
    ]

  -- The text, or nothing where the cast throws.
  pub to_string : (A → Result Bytes) → ConfigVar W A → Bytes
  to_string to_str var = elim (to_str var.val) [ err e ↦ [] | ok s ↦ s ]
