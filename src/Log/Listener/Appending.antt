-- ===== src/Log/Listener/Appending.antt =====
-- What the loop over a definition's appenders does to the loggers.
use fxk.Base.{
  ℕ, suc, ◌+◌, Bool, true, false, not, Option, none, some, List, [], ◌∷◌, ◌≡◌, refl, ap as ap', ◌∙◌,
  inl, inr, arith, length, length-append, ◌==◌, ==_refl, if◌then◌else◌, Bool-cases, Result, ok, err,
  ◌>>=◌,
}
use fxk.Log.Pattern.{LogFormatter, init}
use fxk.Log.Appender.{
  Surroundings, LogAppender, Sink, set_formatter, new_file_appender, new_stdout_appender,
}
use fxk.Log.Logger.{World, put_logger, new_appender, add_appender}
use fxk.Log.Logger.Registry.{IsRegistry}
use fxk.Log.Listener.{LogAppenderDefine, make_appender, add_made, formatter_pattern, add_appenders}

-- The same registry, in which each logger has the name and level that it had.
pub record Extends (w w' : World) : Type 0 where
  pub same_loggers : w'.loggers ≡ w.loggers
  pub same_next : w'.next_logger ≡ w.next_logger
  pub same_name : (q : ℕ) → (w'.logger_at q).name ≡ (w.logger_at q).name
  pub same_level : (q : ℕ) → (w'.logger_at q).level ≡ (w.logger_at q).level

pub Extends-refl : (w : World) → Extends w w
Extends-refl w = record {
  same_loggers = refl;
  same_next = refl;
  same_name = λ q. refl;
  same_level = λ q. refl;
}

pub Extends-trans : (u v w : World) → Extends u v → Extends v w → Extends u w
Extends-trans u v w e f = record {
  same_loggers = f.same_loggers ∙ e.same_loggers;
  same_next = f.same_next ∙ e.same_next;
  same_name = λ q. f.same_name q ∙ e.same_name q;
  same_level = λ q. f.same_level q ∙ e.same_level q;
}

pub Extends-IsRegistry : (w w' : World) → Extends w w' → IsRegistry w → IsRegistry w'
Extends-IsRegistry w w' e r = record {
  allocated = λ n p h. rw e.same_next (r.allocated n p (rw e.same_loggers at h));
  named = λ n p h. e.same_name p ∙ r.named n p (rw e.same_loggers at h);
}

module _ (around : Surroundings) where
  abbrev Adds : World → Result (Option (LogAppender × World)) → Type 0
  Adds w (ok (some (ap, w'))) = w'.logger_at ≡ w.logger_at × Extends w w'
  Adds w (ok none) = around.has_d ≡ true
  Adds w (err f) = Unit {0}

  Adds-file :
      (w : World) (r : Result (LogAppender × Sink))
      → Adds w (r >>= λ (ap, s). ok (some (ap, record w { sink = s })))
  Adds-file w (ok (ap, s)) = (
    refl,
    record { same_loggers = refl; same_next = refl; same_name = λ q. refl; same_level = λ q. refl },
  )
  Adds-file w (err f) = tt

  Adds-stdout : (w : World) (r : Result LogAppender) → Adds w (r >>= λ ap. ok (some (ap, w)))
  Adds-stdout w (ok ap) = (refl, Extends-refl w)
  Adds-stdout w (err f) = tt

  Adds-if :
      (w : World) (b : Bool) (r : Result (Option (LogAppender × World)))
      → around.has_d ≡ b
      → Adds w r
      → Adds w (if not b then r else ok none)
  Adds-if w true r e h = e
  Adds-if w false r e h = h

  make_appender-Adds : (a : LogAppenderDefine) (w : World) → Adds w (make_appender around a w)
  unfolding make_appender
  make_appender-Adds a w = elim (Bool-cases (a.type == 1)) [
    | inl e ↦ rw e (Adds-file w (new_file_appender around a.file w.sink))
    | inr e ↦ elim (Bool-cases (a.type == 2)) [
      | inl f ↦
          rw (e, f) (Adds-if w around.has_d _ refl (Adds-stdout w (new_stdout_appender around)))
      | inr f ↦ rw (e, f) tt
    ]
  ]

  -- Unless console appenders are switched off, the logger `p` has `n` appenders more.
  abbrev pub Grows : ℕ → ℕ → World → Result World → Type 0
  Grows p n w (ok w') =
      Extends w w'
      × (around.has_d ≡ false
          → length (w'.logger_at p).appenders ≡ length (w.logger_at p).appenders + n)
  Grows p n w (err f) = Unit {0}

  attach-Extends :
      (p : ℕ) (a : LogAppender) (w : World)
      → Extends w
          (let (q, w') = new_appender a w in put_logger w' p (add_appender (w'.logger_at p) q))
  unfolding new_appender
  attach-Extends p a w = record {
    same_loggers = refl;
    same_next = refl;
    same_name = λ q. ground arith;
    same_level = λ q. ground arith;
  }

  attach_length :
      (p : ℕ) (a : LogAppender) (w : World)
      → length
          ((let (q, w') = new_appender a w in
              put_logger w' p (add_appender (w'.logger_at p) q)).logger_at
            p).appenders
        ≡ length (w.logger_at p).appenders + 1
  unfolding new_appender
  attach_length p a w =
      rw (==_refl p) (omega (arith, length-append (w.logger_at p).appenders (w.next_appender ∷ [])))

  add_made-Grows :
      (p : ℕ) (a : LogAppenderDefine) (w : World) (r : Option (LogAppender × World))
      → Adds w (ok r)
      → Grows p 1 w (add_made around p a w r)
  unfolding add_made
  add_made-Grows p a w none h = (Extends-refl w, λ k. absurd (ground arith))
  add_made-Grows p a w (some (ap, w')) (same, e) = go (init (formatter_pattern a.pattern))
    where
      go :
          (r : Result LogFormatter)
          → Grows p 1 w (
              r >>= λ f.
              let (q, w2) = new_appender (set_formatter ap (some f)) w' in
              ok (put_logger w2 p (add_appender (w2.logger_at p) q)))
      go (err f) = tt
      go (ok f) = (
        Extends-trans w w' _ e (attach-Extends p (set_formatter ap (some f)) w'),
        λ k.
            attach_length p (set_formatter ap (some f)) w'
            ∙ ap' (λ h. length (h p).appenders + 1) same,
      )

  Grows-trans :
      (p n : ℕ) (w w' : World) (r : Result World)
      → Grows p 1 w (ok w')
      → Grows p n w' r
      → Grows p (suc n) w r
  Grows-trans p n w w' (ok w2) (e, h) (f, k) =
      (Extends-trans w w' w2 e f, λ d. omega (arith, h d, k d))
  Grows-trans p n w w' (err f) h k = tt

  Grows-bind :
      (p n : ℕ) (w : World) (r : Result World) (k : World → Result World)
      → Grows p 1 w r
      → ((w' : World) → Grows p n w' (k w'))
      → Grows p (suc n) w (r >>= k)
  Grows-bind p n w (ok w') k h g = Grows-trans p n w w' (k w') h (g w')
  Grows-bind p n w (err f) k h g = tt

  Grows-made :
      (p n : ℕ) (a : LogAppenderDefine) (w : World) (r : Result (Option (LogAppender × World)))
      (k : World → Result World)
      → Adds w r
      → ((w' : World) → Grows p n w' (k w'))
      → Grows p (suc n) w (r >>= λ made. add_made around p a w made >>= k)
  Grows-made p n a w (ok made) k h g =
      Grows-bind p n w (add_made around p a w made) k (add_made-Grows p a w made h) g
  Grows-made p n a w (err f) k h g = tt

  pub add_appenders-Grows :
      (p : ℕ) (as' : List LogAppenderDefine) (w : World)
      → Grows p (length as') w (add_appenders around p as' w)
  unfolding add_appenders
  add_appenders-Grows p [] w = (Extends-refl w, λ k. omega arith)
  add_appenders-Grows p (a ∷ rest) w =
      Grows-made p (length rest) a w (make_appender around a w) _ (make_appender-Adds a w)
        (add_appenders-Grows p rest)
