-- ===== src/Log/Listener/Changes.antt =====
-- The listener of `LogIniter` on definitions that are new, changed, unchanged or gone.
use fxk.Base.{
  true, false, ◌&&◌, some, List, [], ◌∷◌, ◌++◌, ◌≡◌, ◌≢◌, refl, arith, All, ◌==◌, bytes_eq,
  bytes_eq_iff, bytes_eq_refl, ok, err, null_pointer, Result-cases, inl, inr,
}
use fxk.Log.Level.{to_ℕ}
use fxk.Log.Appender.{Surroundings}
use fxk.Log.Logger.{World}
use fxk.Log.Listener.{
  LogAppenderDefine, LogDefine, appender_defines_eq, define_eq, find, reconfigure, apply_define,
  apply_defines, drop_define, drop_defines, on_change,
}

appender_defines_eq_refl : (xs : List LogAppenderDefine) → appender_defines_eq xs xs ≡ true
unfolding appender_defines_eq
appender_defines_eq_refl [] = refl
appender_defines_eq_refl (a ∷ rest) =
    ground (arith, bytes_eq_refl a.pattern, bytes_eq_refl a.file, appender_defines_eq_refl rest)

-- So definitions are equal as soon as name and level are.
define_eq_lem :
    (d e : LogDefine) → define_eq d e ≡ (bytes_eq d.name e.name && to_ℕ d.level == to_ℕ e.level)
unfolding define_eq
define_eq_lem d e = ground (arith, appender_defines_eq_refl d.appenders)

differs : (d e : LogDefine) → to_ℕ d.level ≢ to_ℕ e.level → define_eq d e ≡ false
differs d e k = ground (arith, define_eq_lem d e)

-- `find` finds by name.
find-name : (d e : LogDefine) (xs : List LogDefine) → find d xs ≡ some e → e.name ≡ d.name
unfolding find
find-name d e [] h = cc
find-name d e (x ∷ xs) h = ground (arith, bytes_eq_iff x.name d.name, find-name d e xs)

same_define :
    (d e : LogDefine) (xs : List LogDefine)
    → find d xs ≡ some e
    → to_ℕ d.level ≡ to_ℕ e.level
    → define_eq d e ≡ true
same_define d e xs p q =
    ground (arith, define_eq_lem d e, find-name d e xs p, bytes_eq_iff d.name e.name)

module _ (around : Surroundings) where
  apply_define_changed :
      (old : List LogDefine) (d e : LogDefine) (w : World)
      → find d old ≡ some e
      → define_eq d e ≡ false
      → apply_define around old d w ≡ err null_pointer
  unfolding apply_define reconfigure
  apply_define_changed old d e w h k = rw (h, apply_define) (rw k refl)

  apply_defines_changed :
      (old before after : List LogDefine) (d e : LogDefine) (w w1 : World)
      → find d old ≡ some e
      → define_eq d e ≡ false
      → apply_defines around old before w ≡ ok w1
      → apply_defines around old (before ++ d ∷ after) w ≡ err null_pointer
  unfolding apply_defines
  apply_defines_changed old [] after d e w w1 h k a = rw (apply_define_changed old d e w h k) refl
  apply_defines_changed old (b ∷ before) after d e w w1 h k a =
      elim (Result-cases (apply_define around old b w)) [
        | inl (f, q) ↦ ground (arith, rw q at a)
        | inr (w', q) ↦ rw q (apply_defines_changed old before after d e w' w1 h k (rw q at a))
      ]

  -- A changed level breaks the listener: if the new configuration has a definition whose name
  -- was configured before, at another level, and the definitions before it could be carried out,
  -- then the listener follows a null pointer, whatever else the two configurations hold.
  pub on_change_level :
      (old before after : List LogDefine) (d e : LogDefine) (w w1 : World)
      → find d old ≡ some e
      → to_ℕ d.level ≢ to_ℕ e.level
      → apply_defines around old before w ≡ ok w1
      → on_change around old (before ++ d ∷ after) w ≡ err null_pointer
  unfolding on_change
  on_change_level old before after d e w w1 h k a =
      rw (apply_defines_changed old before after d e w w1 h (differs d e k) a) refl

  -- A definition that is found in the other configuration, at its level.
  abbrev pub IsKept : List LogDefine → LogDefine → Type 0
  IsKept other d = (e : LogDefine) × (find d other ≡ some e) × (to_ℕ d.level ≡ to_ℕ e.level)

  pub apply_defines_kept :
      (old new : List LogDefine) (w : World)
      → All (IsKept old) new
      → apply_defines around old new w ≡ ok w
  unfolding apply_defines
  apply_defines_kept old [] w h = refl
  apply_defines_kept old (d ∷ ds) w ((e, p, q), h) =
      rw (p, apply_define) (rw (same_define d e old p q) (apply_defines_kept old ds w h))

  drop_defines_kept :
      (new old : List LogDefine) (w : World)
      → All (IsKept new) old
      → drop_defines around new old w ≡ w
  unfolding drop_defines
  drop_defines_kept new [] w h = refl
  drop_defines_kept new (d ∷ ds) w ((e, p, q), h) =
      rw (p, drop_define) (drop_defines_kept new ds w h)

  -- A change of appenders alone is not seen: if each definition of either configuration is in
  -- the other, by its name and at its level, then the listener changes nothing, however their
  -- appenders differ.
  pub on_change_appenders :
      (old new : List LogDefine) (w : World)
      → All (IsKept old) new
      → All (IsKept new) old
      → on_change around old new w ≡ ok w
  unfolding on_change
  on_change_appenders old new w h k =
      rw (apply_defines_kept old new w h) (rw (drop_defines_kept new old w k))
