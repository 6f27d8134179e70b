-- ===== src/Fiber/Entry.antt =====
-- fiber.cpp: `MainFunc` and `CallerMainFunc`, up to the last switch out of the fiber. Behind that
-- switch stands an assertion, since a fiber that has ended is not to be switched to again.
use fxk.Base.{
  ℕ, Bool, true, false, Option, none, some, ==_refl, Result, ok, ◌≡◌, refl, arith, ◌>>=◌,
}
use fxk.Fiber.State.{term, except, init}
use fxk.Fiber.{
  World, put, set_state, decrement, remove, get_this, destroy, reset, is_at_rest, main_func,
}

-- The callback is named and not called: `cur->m_cb;`.
unfoldable pub main_entry : ℕ → Bool → World → Result World
main_entry fresh saved w = do
  (cur, w') ← get_this fresh saved w
  ok (put cur (record (w'.fibers cur) { cb = none; state = term }) w')

-- What a callback comes to: does it return, or throw? An empty `std::function` throws.
abbrev pub called : (ℕ → World → Bool × World) → Option ℕ → World → Bool × World
called run_cb none w = (false, w)
called run_cb (some cb) w = run_cb cb w

abbrev pub ended : ℕ → Bool × World → World
ended cur (true, w) = put cur (record (w.fibers cur) { cb = none; state = term }) w
ended cur (false, w) = set_state cur except w

unfoldable pub caller_main_entry : (ℕ → World → Bool × World) → ℕ → Bool → World → Result World
caller_main_entry run_cb fresh saved w = do
  (cur, w') ← get_this fresh saved w
  ok (ended cur (called run_cb (w'.fibers cur).cb w'))

get_this-running :
    (f fresh : ℕ) (saved : Bool) (w : World) → w.this ≡ some f → get_this fresh saved w ≡ ok (f, w)
unfolding get_this
get_this-running f fresh saved w h = ground arith

-- A callback does not take the stack of the fiber that runs it.
abbrev pub KeepsStack : (ℕ → World → Bool × World) → ℕ → Type 0
KeepsStack run_cb f =
    (cb : ℕ) (w : World)
    → (w.fibers f).has_stack ≡ true
    → ((run_cb cb w).1.fibers f).has_stack ≡ true

-- The fiber's state and callback tell whether its callback has returned or thrown.
abbrev pub Tells : ℕ → Bool → World → Type 0
Tells f true w = ((w.fibers f).state ≡ term) × ((w.fibers f).cb ≡ none)
Tells f false w = ((w.fibers f).state ≡ except)

called-stack :
    (run_cb : ℕ → World → Bool × World) (f : ℕ) (cb : Option ℕ) (w : World)
    → KeepsStack run_cb f
    → (w.fibers f).has_stack ≡ true
    → ((called run_cb cb w).1.fibers f).has_stack ≡ true
called-stack run_cb f none w k s = s
called-stack run_cb f (some cb) w k s = k cb w s

-- A fiber with a stack that has ended can be destroyed, and made to start anew with `MainFunc`.
abbrev pub CanBeReused : ℕ → World → Type 0
CanBeReused f w =
    ((w' : World) × (destroy f w ≡ ok w'))
    × ((cb : ℕ)
        → (w' : World) × (reset f (some cb) true w ≡ ok w')
          × ((w'.fibers f).state ≡ init)
          × ((w'.fibers f).entry ≡ main_func)
          × ((w'.fibers f).cb ≡ some cb))

rest-CanBeReused :
    (f : ℕ) (w : World)
    → (w.fibers f).has_stack ≡ true
    → is_at_rest (w.fibers f).state ≡ true
    → CanBeReused f w
unfolding destroy reset
rest-CanBeReused f w s r = (
  (record w { count = decrement w.count; live = remove f w.live }, ground (arith, s, r)),
  λ cb. (
    put f (record (w.fibers f) { cb = some cb; entry = main_func; state = init }) w,
    ground (arith, s, r),
    rw (==_refl f) refl,
    rw (==_refl f) refl,
    rw (==_refl f) refl,
  ),
)

ended-Tells :
    (f : ℕ) (r : Bool × World)
    → (r.1.fibers f).has_stack ≡ true
    → Tells f r.0 (ended f r) × CanBeReused f (ended f r)
ended-Tells f (true, w) s = (
  (rw (==_refl f) refl, rw (==_refl f) refl),
  rest-CanBeReused f _ (rw (==_refl f) s) (rw (==_refl f) refl),
)
ended-Tells f (false, w) s =
    (rw (==_refl f) refl, rest-CanBeReused f _ (rw (==_refl f) s) (rw (==_refl f) refl))

-- Whatever the callback of the running fiber does but take the fiber's stack: `CallerMainFunc` ends
-- without an assertion; the fiber is then TERM and without callback, if the callback has returned,
-- and EXCEPT, if it has thrown or there was none; and in either case it can be destroyed, or reset
-- to a new callback where `getcontext` succeeds; then it is INIT, and its context begins with
-- `MainFunc`.
pub caller_main_entry-Tells :
    (run_cb : ℕ → World → Bool × World) (f fresh : ℕ) (saved : Bool) (w : World)
    → w.this ≡ some f
    → (w.fibers f).has_stack ≡ true
    → KeepsStack run_cb f
    → (w' : World) × (caller_main_entry run_cb fresh saved w ≡ ok w')
      × Tells f (called run_cb (w.fibers f).cb w).0 w'
      × CanBeReused f w'
unfolding caller_main_entry
caller_main_entry-Tells run_cb f fresh saved w h s k =
    let r = called run_cb (w.fibers f).cb w in
    let (tells, reused) = ended-Tells f r (called-stack run_cb f (w.fibers f).cb w k s) in
    (ended f r, rw (get_this-running f fresh saved w h) refl, tells, reused)
