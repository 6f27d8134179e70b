-- ===== src/Config/Variable/Listeners.antt =====
-- config/config.cpp: who hears of a new value of a `ConfigVar`, and what becomes of the value.
use mathlib.Core.List.{append-nil, append_assoc}
use mathlib.Core.Logic.{◌↔◌}
use fxk.Base.{
  ℕ, ◌+◌, ◌%◌, ◌^◌, ◌≤◌, ◌<◌, Bool, true, false, none, some, List, [], ◌∷◌, ◌++◌, ◌≡◌, ◌≢◌, refl,
  sym, ap, ◌∙◌, ◌⊎◌, inl, inr, arith, ◌==◌, ==_refl, if◌then◌else◌, Bytes, All, Bool-cases, Result,
  ok, err, Fault, Result-cases,
}
use fxk.Config.Variable.{
  Listener, ConfigVar, assign, erase, find, add_listener, del_listener, get_listener, notify,
  set_value, from_string,
}

module _ {W A : Type 0} where
  -- The keys ascend and none is above the counter.
  abbrev pub IsListed : ℕ → List (ℕ × Listener W A) → Type 0
  IsListed bound [] = Unit {0}
  IsListed bound ((k, x) ∷ l) =
      (k ≤ bound) × All (λ ((j, y) : ℕ × Listener W A). k < j) l × IsListed bound l

  find_fresh :
      (bound id : ℕ) (l : List (ℕ × Listener W A))
      → IsListed bound l
      → bound < id
      → find id l ≡ none
  unfolding find
  find_fresh bound id [] v h = refl
  find_fresh bound id ((k, x) ∷ l) v h = ground (arith, find_fresh bound id l v.2 h)

  -- A key above all others goes to the end.
  assign_last :
      (bound id : ℕ) (cb : Listener W A) (l : List (ℕ × Listener W A))
      → IsListed bound l
      → bound < id
      → assign id cb l ≡ l ++ (id, cb) ∷ []
  unfolding assign
  assign_last bound id cb [] v h = refl
  assign_last bound id cb ((k, x) ∷ l) v h = ground (arith, assign_last bound id cb l v.2 h)

  find-append :
      (bound id j : ℕ) (cb : Listener W A) (l : List (ℕ × Listener W A))
      → IsListed bound l
      → bound < id
      → find j (l ++ (id, cb) ∷ []) ≡ (if j == id then some cb else find j l)
  unfolding find
  find-append bound id j cb [] v h = refl
  find-append bound id j cb ((k, x) ∷ l) v h = ground (arith, find-append bound id j cb l v.2 h)

  erase-append :
      (bound id : ℕ) (cb : Listener W A) (l : List (ℕ × Listener W A))
      → IsListed bound l
      → bound < id
      → erase id (l ++ (id, cb) ∷ []) ≡ l
  unfolding erase
  erase-append bound id cb [] v h = rw (==_refl id) refl
  erase-append bound id cb ((k, x) ∷ l) v h = ground (arith, erase-append bound id cb l v.2 h)

  All-below :
      (bound id k : ℕ) (cb : Listener W A) (l : List (ℕ × Listener W A))
      → k < id
      → All (λ ((j, y) : ℕ × Listener W A). k < j) l
      → All (λ ((j, y) : ℕ × Listener W A). k < j) (l ++ (id, cb) ∷ [])
  All-below bound id k cb [] h a = (h, tt)
  All-below bound id k cb ((j, y) ∷ l) h a = (a.0, All-below bound id k cb l h a.1)

  IsListed-append :
      (bound id : ℕ) (cb : Listener W A) (l : List (ℕ × Listener W A))
      → IsListed bound l
      → bound < id
      → IsListed id (l ++ (id, cb) ∷ [])
  IsListed-append bound id cb [] v h = (omega arith, tt, tt)
  IsListed-append bound id cb ((k, x) ∷ l) v h = (
    omega (arith, v.0, h),
    All-below bound id k cb l (omega (arith, v.0, h)) v.1,
    IsListed-append bound id cb l v.2 h,
  )

  -- What a subscription promises of the variable before and after.
  pub record Subscribes (cb : Listener W A) (fun_id : ℕ) (var : ConfigVar W A) (id : ℕ)
      (var' : ConfigVar W A) : Type 0 where
    pub above : fun_id < id
    pub listed : IsListed id var'.cbs
    pub unknown : get_listener id var ≡ none
    pub reads : (j : ℕ) → get_listener j var' ≡ (if j == id then some cb else get_listener j var)
    pub undone : del_listener id var' ≡ var

  -- Where the keys of the listeners ascend up to the counter, and the counter has not reached its
  -- bound: `addListener` gives a new, larger id, under which exactly the new listener is found,
  -- all others are found as before, and `delListener` of that id restores the variable.
  pub add_listener-Subscribes :
      (cb : Listener W A) (fun_id : ℕ) (var : ConfigVar W A)
      → IsListed fun_id var.cbs
      → fun_id + 1 < 2 ^ 64
      → (id : ℕ) × (var' : ConfigVar W A) × (add_listener cb fun_id var ≡ (id, id, var'))
        × Subscribes cb fun_id var id var'
  unfolding add_listener get_listener del_listener
  add_listener-Subscribes cb fun_id var v h =
      let id = (fun_id + 1) % 2 ^ 64 in
      let more : fun_id < id = omega (arith, h) in
      let last = assign_last fun_id id cb var.cbs v more in
      (
        id,
        record var { cbs = assign id cb var.cbs },
        refl,
        record {
          above = more;
          listed = rw last (IsListed-append fun_id id cb var.cbs v more);
          unknown = find_fresh fun_id id var.cbs v more;
          reads = λ j. rw last (find-append fun_id id j cb var.cbs v more);
          undone = rw last (rw (erase-append fun_id id cb var.cbs v more) refl);
        },
      )

true_is_not_false : true ≡ false → ⊥
true_is_not_false e = ground arith

-- A program that writes down who was told of what.
abbrev pub Heard : Type 0 → Type 0
Heard A = List (ℕ × A × A)

module _ {A : Type 0} where
  -- The listener of the key writes down what it hears, and does not throw.
  abbrev pub Records : ℕ × Listener (Heard A) A → Type 0
  Records (k, x) = (old new : A) (w : Heard A) → x old new w ≡ (w ++ (k, old, new) ∷ [], false)

  abbrev pub heard_by : A → A → List (ℕ × Listener (Heard A) A) → Heard A
  heard_by old new [] = []
  heard_by old new ((k, x) ∷ l) = (k, old, new) ∷ heard_by old new l

  notify-Records :
      (old new : A) (before after : List (ℕ × Listener (Heard A) A)) (w : Heard A)
      → All Records before
      → notify old new (before ++ after) w ≡ notify old new after (w ++ heard_by old new before)
  unfolding notify
  notify-Records old new [] after w h = rw append-nil refl
  notify-Records old new ((k, x) ∷ l) after w h =
      rw (h.0 old new w)
        (notify-Records old new l after (w ++ (k, old, new) ∷ []) h.1 ∙ rw append_assoc refl)

  notify-All :
      (v : A) (var : ConfigVar (Heard A) A) (w : Heard A)
      → All Records var.cbs
      → notify var.val v var.cbs w ≡ (w ++ heard_by var.val v var.cbs, false)
  unfolding notify
  notify-All v var w h =
      ap (λ l. notify var.val v l w) (sym (append-nil var.cbs))
      ∙ notify-Records var.val v var.cbs [] w h

  notify_stops :
      (v : A) (var : ConfigVar (Heard A) A) (w thrown : Heard A) (k : ℕ) (x : Listener (Heard A) A)
      (before after : List (ℕ × Listener (Heard A) A))
      → var.cbs ≡ before ++ (k, x) ∷ after
      → All Records before
      → x var.val v (w ++ heard_by var.val v before) ≡ (thrown, true)
      → notify var.val v var.cbs w ≡ (thrown, true)
  unfolding notify
  notify_stops v var w thrown k x before after e h t =
      rw e (notify-Records var.val v before ((k, x) ∷ after) w h ∙ rw t refl)

  module _ (eq : A → A → Bool) (eq-iff : (a b : A) → (eq a b ≡ true) ↔ (a ≡ b)) where
    -- Where every listener records and none throws: `setValue` with another value tells each
    -- listener once, in the order of the ids, of the old and the new value, and stores the new
    -- value; with the value the variable has it does nothing.
    pub set_value-tells :
        (v : A) (var : ConfigVar (Heard A) A) (w : Heard A)
        → All Records var.cbs
        → ((v ≡ var.val) × (set_value eq v var w ≡ (var, w, false)))
          ⊎ ((v ≢ var.val)
              × (set_value eq v var w
                  ≡ (record var { val = v }, w ++ heard_by var.val v var.cbs, false)))
    unfolding set_value notify
    set_value-tells v var w h = elim (Bool-cases (eq v var.val)) [
      | inl same ↦ inl ((eq-iff v var.val).0 same, rw same refl)
      | inr other ↦ inr (
        λ e. true_is_not_false (sym ((eq-iff v var.val).1 e) ∙ other),
        rw other (rw (notify-All v var w h) refl),
      )
    ]

    -- Where a listener throws, whose predecessors record and do not: the value stays, and nobody
    -- behind that listener hears anything.
    pub set_value-stops :
        (v : A) (var : ConfigVar (Heard A) A) (w thrown : Heard A) (k : ℕ)
        (x : Listener (Heard A) A) (before after : List (ℕ × Listener (Heard A) A))
        → v ≢ var.val
        → var.cbs ≡ before ++ (k, x) ∷ after
        → All Records before
        → x var.val v (w ++ heard_by var.val v before) ≡ (thrown, true)
        → set_value eq v var w ≡ (var, thrown, true)
    unfolding set_value notify
    set_value-stops v var w thrown k x before after ne e h t = elim (Bool-cases (eq v var.val)) [
      | inl same ↦ absurd (ne ((eq-iff v var.val).0 same))
      | inr other ↦ rw other (rw (notify_stops v var w thrown k x before after e h t) refl)
    ]

    -- `fromString` answers false and throws nothing, whatever its text: where the text cannot be
    -- cast, nothing changes; where it casts to another value and all listeners record, the
    -- variable has that value and they are told, but the answer is the same.
    pub from_string_answers :
        (from_str : Bytes → Result A) (text : Bytes) (var : ConfigVar (Heard A) A) (w : Heard A)
        → All Records var.cbs
        → (((f : Fault) × (from_str text ≡ err f))
            × (from_string eq from_str text var w ≡ (var, w, false)))
          ⊎ ((v : A) × (from_str text ≡ ok v)
              × (from_string eq from_str text var w ≡ (
                record var { val = v },
                (if eq v var.val then w else w ++ heard_by var.val v var.cbs),
                false,
              )))
    unfolding from_string set_value
    from_string_answers from_str text var w h = elim (Result-cases (from_str text)) [
      | inl (f, e) ↦ inl ((f, e), rw (e, from_string) refl)
      | inr (v, e) ↦ inr (
        v,
        e,
        elim (Bool-cases (eq v var.val)) [
          | inl same ↦ rw (e, from_string) (rw same (rw ((eq-iff v var.val).0 same) refl))
          | inr other ↦ rw (e, from_string) (rw other (rw (notify-All v var w h) refl))
        ],
      )
    ]
