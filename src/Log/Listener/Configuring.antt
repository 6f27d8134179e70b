-- ===== src/Log/Listener/Configuring.antt =====
-- What the listener makes of a new definition.
use mathlib.Core.Path.{subst}
use fxk.Base.{ℕ, false, some, ◌≡◌, refl, ◌∙◌, All, ==_refl, ok}
use fxk.Log.Appender.{Surroundings}
use fxk.Log.Logger.{World, get_logger, lookup}
use fxk.Log.Logger.Registry.{IsRegistry, get_logger-Provides}
use fxk.Log.Listener.{LogDefine, configure, reset_logger}
use fxk.Log.Listener.Appending.{Extends-IsRegistry, Grows, add_appenders-Grows}
use fxk.Log.Listener.Building.{IsAppender, AreBuilt, add_appenders-Builds}
use fxk.Log.Listener.Muting.{reset_logger-IsRegistry}

module _ (around : Surroundings) where
  -- A definition that is new, whose appenders are files and consoles with patterns that do not
  -- break `init`: on a registry, where console appenders are not switched off, the listener carries
  -- it out. The result is a registry whose logger of that name is at the definition's level and
  -- has the appenders that the definition lists and no others, in their order: for each file one
  -- that writes to the file of that name, for each console one that writes to the console, and each
  -- with a formatter of its own, which is made of the definition's pattern, or of the default
  -- pattern where that is empty.
  pub configure_new :
      (i : LogDefine) (w : World)
      → IsRegistry w
      → All IsAppender i.appenders
      → around.has_d ≡ false
      → (w' : World) × (configure around i w ≡ ok w')
        × IsRegistry w'
        × ((p : ℕ) × (lookup i.name w'.loggers ≡ some p)
            × ((w'.logger_at p).level ≡ i.level)
            × AreBuilt w'.appender_at i.appenders (w'.logger_at p).appenders)
  unfolding configure
  configure_new i w r h d =
      let p = (get_logger around i.name w).0 in
      let v = get_logger-Provides around i.name w r in
      let w1 = reset_logger p i.level (get_logger around i.name w).1 in
      let (w', e, b) = add_appenders-Builds around p i.appenders w1 h d in
      let (x, _) = subst (Grows around p _ w1) e (add_appenders-Grows around p i.appenders w1) in
      let listed : (w'.logger_at p).appenders ≡ b.places = b.listed ∙ rw (==_refl p) refl in
      (
        w',
        e,
        Extends-IsRegistry _ w' x (reset_logger-IsRegistry around p i.level _ v.registry),
        (p, rw x.same_loggers v.registered, x.same_level p ∙ rw (==_refl p), rw listed b.built),
      )
