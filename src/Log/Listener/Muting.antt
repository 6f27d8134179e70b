-- ===== src/Log/Listener/Muting.antt =====
-- What the listener of `LogIniter` does to the loggers of new definitions and of those that are
-- gone, on a registry.
use fxk.Base.{
  ℕ, none, some, List, [], ◌∷◌, ◌++◌, ◌≡◌, refl, inl, inr, arith, All, ==_refl, Option-cases, Bytes,
  ok,
}
use fxk.Log.Level.{Level, notset}
use fxk.Log.Appender.{Surroundings}
use fxk.Log.Logger.{World, lookup, get_logger}
use fxk.Log.Logger.Registry.{IsRegistry, get_logger-Provides}
use fxk.Log.Listener.Changes.{IsKept, apply_defines_kept}
use fxk.Log.Listener.{LogDefine, find, drop_define, drop_defines, reset_logger, on_change}

module _ (around : Surroundings) where
  pub reset_logger-IsRegistry :
      (p : ℕ) (level : Level) (w : World) → IsRegistry w → IsRegistry (reset_logger p level w)
  reset_logger-IsRegistry p level w r = record {
    allocated = r.allocated;
    named = λ n q h. ground (arith, r.named n q h);
  }

  -- The logger of that name is at `NOTSET` and has no appenders.
  pub record IsMuted (w : World) (name : Bytes) : Type 0 where
    pub logger : ℕ
    pub registered : lookup name w.loggers ≡ some logger
    pub level_is : (w.logger_at logger).level ≡ notset
    pub appenders_are : (w.logger_at logger).appenders ≡ []

  abbrev muted : Bytes → World → World
  muted name w = reset_logger (get_logger around name w).0 notset (get_logger around name w).1

  muted-IsRegistry : (name : Bytes) (w : World) → IsRegistry w → IsRegistry (muted name w)
  muted-IsRegistry name w r =
      reset_logger-IsRegistry _ notset _ (get_logger-Provides around name w r).registry

  muted-IsMuted : (name : Bytes) (w : World) → IsRegistry w → IsMuted (muted name w) name
  muted-IsMuted name w r = record {
    logger = (get_logger around name w).0;
    registered = (get_logger-Provides around name w r).registered;
    level_is = rw (==_refl (get_logger around name w).0);
    appenders_are = rw (==_refl (get_logger around name w).0);
  }

  muted-keeps : (name n : Bytes) (w : World) → IsRegistry w → IsMuted w n → IsMuted (muted name w) n
  muted-keeps name n w r m =
      let p = get_logger-Provides around name w r in
      let (k, s) = p.keeps n m.logger m.registered in
      record {
        logger = m.logger;
        registered = k;
        level_is = ground (arith, s, m.level_is);
        appenders_are = ground (arith, s, m.appenders_are);
      }

  drop_define-keeps :
      (new : List LogDefine) (i : LogDefine) (n : Bytes) (w : World)
      → IsRegistry w
      → IsMuted w n
      → IsMuted (drop_define around new i w) n
  unfolding drop_define
  drop_define-keeps new i n w r m = elim (Option-cases (find i new)) [
    | inl e ↦ rw (e, drop_define) (muted-keeps i.name n w r m)
    | inr (d, e) ↦ rw (e, drop_define) m
  ]

  drop_define-IsRegistry :
      (new : List LogDefine) (i : LogDefine) (w : World)
      → IsRegistry w
      → IsRegistry (drop_define around new i w)
  unfolding drop_define
  drop_define-IsRegistry new i w r = elim (Option-cases (find i new)) [
    | inl e ↦ rw (e, drop_define) (muted-IsRegistry i.name w r)
    | inr (d, e) ↦ rw (e, drop_define) r
  ]

  drop_defines-keeps :
      (new old : List LogDefine) (n : Bytes) (w : World)
      → IsRegistry w
      → IsMuted w n
      → IsMuted (drop_defines around new old w) n
  unfolding drop_defines
  drop_defines-keeps new [] n w r m = m
  drop_defines-keeps new (i ∷ is) n w r m =
      drop_defines-keeps new is n (drop_define around new i w) (drop_define-IsRegistry new i w r)
        (drop_define-keeps new i n w r m)

  drop_defines-IsMuted :
      (new before after : List LogDefine) (d : LogDefine) (w : World)
      → IsRegistry w
      → find d new ≡ none
      → IsMuted (drop_defines around new (before ++ d ∷ after) w) d.name
  unfolding drop_defines
  drop_defines-IsMuted new [] after d w r e =
      drop_defines-keeps new after d.name (drop_define around new d w)
        (drop_define-IsRegistry new d w r) (rw (e, drop_define) (muted-IsMuted d.name w r))
  drop_defines-IsMuted new (i ∷ is) after d w r e =
      drop_defines-IsMuted new is after d (drop_define around new i w)
        (drop_define-IsRegistry new i w r) e

  -- A definition that is gone: if every definition of the new configuration is in the old one, at
  -- its level, then on a registry the listener ends well; and the logger of a definition of the
  -- old configuration that the new one does not name is at `NOTSET` afterwards, with no appenders.
  pub on_change_gone :
      (before after new : List LogDefine) (d : LogDefine) (w : World)
      → IsRegistry w
      → All (IsKept around (before ++ d ∷ after)) new
      → find d new ≡ none
      → (w' : World) × (on_change around (before ++ d ∷ after) new w ≡ ok w') × IsMuted w' d.name
  unfolding on_change
  on_change_gone before after new d w r k e = (
    drop_defines around new (before ++ d ∷ after) w,
    rw (apply_defines_kept around (before ++ d ∷ after) new w k) refl,
    drop_defines-IsMuted new before after d w r e,
  )
