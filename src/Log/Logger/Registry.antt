-- ===== src/Log/Logger/Registry.antt =====
-- `LoggerManager::getLogger` and the map of loggers.
use fxk.Base.{
  ℕ, suc, ◌<◌, none, some, ◌∷◌, ◌≡◌, ◌≢◌, refl, sym, ◌∙◌, ap, inl, inr, arith, ==_refl, Bytes,
  bytes_eq, bytes_eq_iff, bytes_eq_refl, Option-cases, if◌then◌else◌,
}
use fxk.Log.Appender.{Surroundings}
use fxk.Log.Logger.{World, lookup, get_logger, put, new_logger}

-- Each name is that of its logger, which was allocated.
pub record IsRegistry (w : World) : Type 0 where
  pub allocated : (n : Bytes) (p : ℕ) → lookup n w.loggers ≡ some p → p < w.next_logger
  pub named : (n : Bytes) (p : ℕ) → lookup n w.loggers ≡ some p → (w.logger_at p).name ≡ n

module _ (around : Surroundings) where
  get_logger_old :
      (name : Bytes) (w : World) (p : ℕ)
      → lookup name w.loggers ≡ some p
      → get_logger around name w ≡ (p, w)
  unfolding get_logger
  get_logger_old name w p e = rw (e, get_logger)

  abbrev created : Bytes → World → World
  created name w = record w {
    logger_at = put w.logger_at w.next_logger (new_logger around name);
    next_logger = suc w.next_logger;
    loggers = (name, w.next_logger) ∷ w.loggers;
  }

  get_logger_new :
      (name : Bytes) (w : World)
      → lookup name w.loggers ≡ none
      → get_logger around name w ≡ (w.next_logger, created name w)
  unfolding get_logger
  get_logger_new name w e = rw (e, get_logger)

  lookup-created :
      (name n : Bytes) (w : World)
      → lookup n (created name w).loggers
        ≡ (if bytes_eq name n then some w.next_logger else lookup n w.loggers)
  unfolding lookup
  lookup-created name n w = refl

  created-IsRegistry : (name : Bytes) (w : World) → IsRegistry w → IsRegistry (created name w)
  created-IsRegistry name w r = record {
    allocated = λ n p e. ground (arith, lookup-created name n w, r.allocated n p);
    named = λ n p e.
        ground (arith, lookup-created name n w, r.allocated n p, r.named n p, bytes_eq_iff name n);
  }

  created-keeps :
      (name n : Bytes) (w : World) (q : ℕ)
      → IsRegistry w
      → lookup name w.loggers ≡ none
      → lookup n w.loggers ≡ some q
      → (lookup n (created name w).loggers ≡ some q)
        × ((created name w).logger_at q ≡ w.logger_at q)
  created-keeps name n w q r e h = (
    ground (arith, lookup-created name n w, bytes_eq_iff name n),
    ground (arith, r.allocated n q),
  )

  created-apart :
      (name n : Bytes) (w : World) (q : ℕ)
      → IsRegistry w
      → lookup n (created name w).loggers ≡ some q
      → n ≢ name
      → q ≢ w.next_logger
  created-apart name n w q r h d same =
      ground (arith, lookup-created name n w, bytes_eq_iff name n, r.allocated n q)

  -- What `get_logger` promises of its result and the new world.
  pub record Provides (name : Bytes) (w : World) (r : ℕ × World) : Type 0 where
    pub registry : IsRegistry r.1
    pub name_of : (r.1.logger_at r.0).name ≡ name
    pub registered : lookup name r.1.loggers ≡ some r.0
    pub same_again : get_logger around name r.1 ≡ (r.0, r.1)
    pub keeps :
        (n : Bytes) (q : ℕ)
        → lookup n w.loggers ≡ some q
        → (lookup n r.1.loggers ≡ some q) × (r.1.logger_at q ≡ w.logger_at q)
    pub apart : (n : Bytes) (q : ℕ) → lookup n r.1.loggers ≡ some q → n ≢ name → q ≢ r.0

  -- On a registry, `getLogger` gives a logger of that name, registered
  -- under it, and again a registry; asked once more
  -- it gives the same logger and creates nothing; it keeps every logger that was registered, and
  -- the logger that it gives is no other name's.
  pub get_logger-Provides :
      (name : Bytes) (w : World) → IsRegistry w → Provides name w (get_logger around name w)
  get_logger-Provides name w r = elim (Option-cases (lookup name w.loggers)) [
    | inr (p, e) ↦ rw (get_logger_old name w p e) (record {
      registry = r;
      name_of = r.named name p e;
      registered = e;
      same_again = get_logger_old name w p e;
      keeps = λ n q h. (h, refl);
      apart = λ n q h d same.
          d (sym (r.named n q h) ∙ ap (λ x. (w.logger_at x).name) same ∙ r.named name p e);
    })
    | inl e ↦ rw (get_logger_new name w e) (record {
      registry = created-IsRegistry name w r;
      name_of = rw (==_refl w.next_logger);
      registered = lookup-created name name w ∙ rw bytes_eq_refl;
      same_again =
          get_logger_old name (created name w) w.next_logger
            (lookup-created name name w ∙ rw bytes_eq_refl);
      keeps = λ n q h. created-keeps name n w q r e h;
      apart = λ n q h d. created-apart name n w q r h d;
    })
  ]
