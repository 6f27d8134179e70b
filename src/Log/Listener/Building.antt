-- ===== src/Log/Listener/Building.antt =====
-- Which appenders the loop over a definition's appenders gives to a logger.
use mathlib.Core.List.{append_assoc, append-nil}
use fxk.Base.{
  ℕ, ◌<◌, false, not, none, some, List, [], ◌∷◌, ◌++◌, ◌≡◌, refl, ap as ap', sym, ◌∙◌, ◌⊎◌, inl,
  inr, arith, ◌==◌, ==_refl, if◌then◌else◌, All, ok,
}
use fxk.Log.Pattern.{LogFormatter, init}
use fxk.Log.Appender.{
  Sink, Surroundings, Kind, stdout_log, file_log, LogAppender, set_formatter, default_pattern,
  new_file_appender, new_stdout_appender, reopen, print_console, reopen_message,
}
use fxk.Log.Logger.{World, put_logger, new_appender, add_appender}
use fxk.Log.Listener.{LogAppenderDefine, make_appender, add_made, formatter_pattern, add_appenders}

-- A file or a console, with a pattern that does not end in `%d`.
abbrev pub IsAppender : LogAppenderDefine → Type 0
IsAppender a =
    ((a.type ≡ 1) ⊎ (a.type ≡ 2))
    × ((f : LogFormatter) × (init (formatter_pattern a.pattern) ≡ ok f))

-- The console for type 2, and for type 1 the file of that name.
abbrev pub IsKind : LogAppenderDefine → Kind → Type 0
IsKind a stdout_log = a.type ≡ 2
IsKind a (file_log f) = (a.type ≡ 1) × (f.filename ≡ a.file)

-- An appender as the definition has it, with a formatter of its own for the definition's pattern.
abbrev pub IsBuilt : LogAppenderDefine → LogAppender → Type 0
IsBuilt a x =
    IsKind a x.kind
    × ((f : LogFormatter) × (init (formatter_pattern a.pattern) ≡ ok f) × (x.formatter ≡ some f))

-- The appenders at these places are those of the definitions, one by one.
abbrev pub AreBuilt : (ℕ → LogAppender) → List LogAppenderDefine → List ℕ → Type 0
AreBuilt at [] [] = Unit {0}
AreBuilt at (a ∷ l) (p ∷ ps) = IsBuilt a (at p) × AreBuilt at l ps
AreBuilt at [] (p ∷ ps) = ⊥
AreBuilt at (a ∷ l) [] = ⊥

abbrev added : ℕ → LogAppender → World → World
added p x w = let (q, w') = new_appender x w in put_logger w' p (add_appender (w'.logger_at p) q)

-- The appenders of the logger `p` grow by those of the definitions, and none that was there changes.
pub record Builds (p : ℕ) (l : List LogAppenderDefine) (w w' : World) : Type 0 where
  pub places : List ℕ
  pub listed : (w'.logger_at p).appenders ≡ (w.logger_at p).appenders ++ places
  pub built : AreBuilt w'.appender_at l places
  pub same : (q : ℕ) → q < w.next_appender → w'.appender_at q ≡ w.appender_at q

added-at : (p : ℕ) (x : LogAppender) (w : World) → (added p x w).appender_at w.next_appender ≡ x
unfolding new_appender
added-at p x w = rw (==_refl w.next_appender) refl

added-same :
    (p q : ℕ) (x : LogAppender) (w : World)
    → q < w.next_appender
    → (added p x w).appender_at q ≡ w.appender_at q
unfolding new_appender
added-same p q x w h =
    let other : (w.next_appender == q) ≡ false = ground (arith, h) in rw other refl

added-listed :
    (p : ℕ) (x : LogAppender) (w : World)
    → ((added p x w).logger_at p).appenders ≡ (w.logger_at p).appenders ++ w.next_appender ∷ []
unfolding new_appender
added-listed p x w = rw (==_refl p) refl

Builds-cons :
    (p : ℕ) (a : LogAppenderDefine) (l : List LogAppenderDefine) (x : LogAppender) (w w' : World)
    → IsBuilt a x
    → Builds p l (added p x w) w'
    → Builds p (a ∷ l) w w'
unfolding new_appender
Builds-cons p a l x w w' i b =
    let at_next : w'.appender_at w.next_appender ≡ x =
      b.same w.next_appender (omega arith) ∙ added-at p x w in
    record {
      places = w.next_appender ∷ b.places;
      listed =
          b.listed
          ∙ ap' (λ (m : List ℕ). m ++ b.places) (added-listed p x w)
          ∙ append_assoc (w.logger_at p).appenders (w.next_appender ∷ []) b.places;
      built = (rw at_next i, b.built);
      same = λ q h. b.same q (omega (arith, h)) ∙ added-same p q x w h;
    }

pub default_is_fine : (f : LogFormatter) × (init default_pattern ≡ ok f)
unfolding init
default_is_fine = (_, refl)

module _ (around : Surroundings) where
  file_built :
      (a : LogAppenderDefine) (s : Sink)
      → a.type ≡ 1
      → (x : LogAppender) × (s' : Sink) × (new_file_appender around a.file s ≡ ok (x, s'))
        × IsKind a x.kind
  unfolding new_file_appender reopen
  file_built a s one =
      let (f, e) = default_is_fine in
      let opened = around.opens a.file in
      (
        record {
          kind = file_log (record { filename = a.file; last_time = 0; reopen_error = not opened });
          formatter = none;
          default_formatter = f;
        },
        (if not opened then print_console s (reopen_message a.file) else s),
        rw e refl,
        (one, refl),
      )

  stdout_built :
      (a : LogAppenderDefine)
      → a.type ≡ 2
      → (x : LogAppender) × (new_stdout_appender around ≡ ok x) × IsKind a x.kind
  unfolding new_stdout_appender
  stdout_built a two =
      let (f, e) = default_is_fine in
      (record { kind = stdout_log; formatter = none; default_formatter = f }, rw e refl, two)

  make_appender-IsKind :
      (a : LogAppenderDefine) (w : World)
      → IsAppender a
      → around.has_d ≡ false
      → (x : LogAppender) × (s : Sink) × (make_appender around a w
          ≡ ok (some (x, record w { sink = s })))
        × IsKind a x.kind
  unfolding make_appender
  make_appender-IsKind a w (inl one, _) d =
      let (x, s, does, k) = file_built a w.sink one in (x, s, rw one (rw does refl), k)
  make_appender-IsKind a w (inr two, _) d =
      let (x, does, k) = stdout_built a two in (x, w.sink, rw two (rw does (rw d refl)), k)

  -- The loop ends without a fault, and builds the appenders of the definitions.
  pub add_appenders-Builds :
      (p : ℕ) (l : List LogAppenderDefine) (w : World)
      → All IsAppender l
      → around.has_d ≡ false
      → (w' : World) × (add_appenders around p l w ≡ ok w') × Builds p l w w'
  unfolding add_appenders add_made
  add_appenders-Builds p [] w h d =
      (w, refl, record { places = []; listed = sym (append-nil _); built = tt; same = λ q k. refl })
  add_appenders-Builds p (a ∷ l) w h d =
      let (x, s, made, k) = make_appender-IsKind a w h.0 d in
      let (f, e) = h.0.1 in
      let y = set_formatter x (some f) in
      let (w', rest, b) = add_appenders-Builds p l (added p y (record w { sink = s })) h.1 d in
      let c = Builds-cons p a l y (record w { sink = s }) w' (k, (f, e, refl)) b in
      (
        w',
        rw made (rw e rest),
        record { places = c.places; listed = c.listed; built = c.built; same = c.same },
      )
