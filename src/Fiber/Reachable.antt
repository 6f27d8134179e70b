-- ===== src/Fiber/Reachable.antt =====
-- fiber.cpp: sequences of operations on fibers.
use mathlib.Core.Path.{subst}
use fxk.Base.{
  ok-injective, ℕ, suc, ◌%◌, ◌^◌, ◌<◌, Bool, true, false, Option, [], length, ==_refl, ok, ◌≡◌,
  refl, ap, ◌⊎◌, inl, inr, arith, Option-cases,
}
use fxk.Fiber.{Fiber, World, increment, new_main, new_fiber, destroy, reset, get_this, total_fibers}
use fxk.Fiber.Lives.{
  member, IsConsistent, Keeps, reset-put, put-Keeps, Keeps-IsConsistent, destroy-IsConsistent, Made,
  HasId, Made-IsConsistent,
}

-- `runs`: changes of the fibers' states and callbacks and of which of them runs, as switches bring
-- them about.
pub data Step (w w' : World) : Type 0 where
  makes :
      (a : ℕ) (cb : Option ℕ) (stack_size : ℕ) (use_caller saved : Bool)
      → suc w.last_id < 2 ^ 64
      → new_fiber a cb stack_size use_caller saved w ≡ ok w'
      → Step w w'
  enters : (fresh f : ℕ) (saved : Bool) → get_this fresh saved w ≡ ok (f, w') → Step w w'
  destroys : (a : ℕ) → member a w.live ≡ true → destroy a w ≡ ok w' → Step w w'
  resets : (a : ℕ) (cb : Option ℕ) (saved : Bool) → reset a cb saved w ≡ ok w' → Step w w'
  runs : Keeps w w' → Step w w'

pub data Steps : World → World → Type 0 where
  done : (w : World) → Steps w w
  next : {w w1 w2 : World} → Step w w1 → Steps w1 w2 → Steps w w2

-- The process before its first fiber.
abbrev pub IsBlank : World → Type 0
IsBlank w = (w.live ≡ []) × (w.count ≡ 0) × (w.last_id ≡ 0)

abbrev HasMade : ℕ → World → World → Type 0
HasMade a w w' = (f : Fiber) × (n : ℕ) × Made a f n w w' × HasId f n w × (n < 2 ^ 64)

new_fiber-Made :
    (a : ℕ) (cb : Option ℕ) (stack_size : ℕ) (use_caller saved : Bool) (w w' : World)
    → suc w.last_id < 2 ^ 64
    → new_fiber a cb stack_size use_caller saved w ≡ ok w'
    → HasMade a w w'
unfolding new_fiber
new_fiber-Made a cb stack_size use_caller true w w' b e = subst (HasMade a w) (ok-injective _ _ e) (
  _,
  increment w.last_id,
  (refl, refl, refl, refl),
  inr (refl, refl, omega (arith, b)),
  omega arith,
)
new_fiber-Made a cb stack_size use_caller false w w' b e = ground arith

get_this-Made :
    (fresh f : ℕ) (saved : Bool) (w w' : World)
    → w.last_id < 2 ^ 64
    → get_this fresh saved w ≡ ok (f, w')
    → (w ≡ w') ⊎ HasMade fresh w w'
unfolding get_this new_main
get_this-Made fresh f true w w' b e = elim (Option-cases w.this) [
  | inl h ↦
      let e' = ok-injective _ _ (rw (h, get_this, ==_refl fresh) at e) in
      inr (
        subst (HasMade fresh w) (ap (λ (q : ℕ × World). q.1) e')
          (_, w.last_id, (refl, refl, refl, refl), inl (refl, refl), b))
  | inr (g, h) ↦ inl (ap (λ (q : ℕ × World). q.1) (ok-injective _ _ (rw (h, get_this) at e)))
]
get_this-Made fresh f false w w' b e = elim (Option-cases w.this) [
  | inl h ↦ absurd (ground arith)
  | inr (g, h) ↦ inl (ap (λ (q : ℕ × World). q.1) (ok-injective _ _ (rw (h, get_this) at e)))
]

HasMade-IsConsistent : (a : ℕ) (w w' : World) → HasMade a w w' → IsConsistent w → IsConsistent w'
HasMade-IsConsistent a w w' (f, n, made, i, b) v = Made-IsConsistent a f n w w' made i b v

Step-IsConsistent : (w w' : World) → Step w w' → IsConsistent w → IsConsistent w'
Step-IsConsistent w w' (makes a cb size use_caller saved b e) v =
    HasMade-IsConsistent a w w' (new_fiber-Made a cb size use_caller saved w w' b e) v
Step-IsConsistent w w' (enters fresh f saved e) v =
    elim (get_this-Made fresh f saved w w' v.below e) [
      | inl same ↦ subst IsConsistent same v
      | inr made ↦ HasMade-IsConsistent fresh w w' made v
    ]
Step-IsConsistent w w' (destroys a m e) v = destroy-IsConsistent a w w' m e v
Step-IsConsistent w w' (resets a cb saved e) v =
    rw (reset-put a cb saved w w' e) (Keeps-IsConsistent w _ (put-Keeps a _ w refl refl) v)
Step-IsConsistent w w' (runs k) v = Keeps-IsConsistent w w' k v

Steps-IsConsistent : (w w' : World) → Steps w w' → IsConsistent w → IsConsistent w'
Steps-IsConsistent w w' (done _) v = v
Steps-IsConsistent w w' (next {w1 = w1} s rest) v =
    Steps-IsConsistent w1 w' rest (Step-IsConsistent w w1 s v)

IsBlank-IsConsistent : (w : World) → IsBlank w → IsConsistent w
IsBlank-IsConsistent w (l, c, i) = record {
  counted = rw (l, c) refl;
  below = rw i (omega arith);
  positive = λ a m s. absurd (nothing a m);
  bounded = λ a m s. absurd (nothing a m);
  distinct = λ a b m n s t e. absurd (nothing a m);
}
  where
    nothing : (a : ℕ) → member a w.live ≡ true → ⊥
    nothing a m = ground (arith, l)

-- Whatever fibers a process makes, enters, resets, runs and destroys, in any order and as long as
-- the ids do not wrap: `TotalFibers` is the number of fibers that are constructed and not
-- destroyed (as a uint64_t); and those of them with a stack of their own have ids that are
-- positive, at most the counter of ids, and different from each other.
pub total_fibers-counts :
    (w w' : World)
    → IsBlank w
    → Steps w w'
    → (total_fibers w' ≡ length w'.live % 2 ^ 64) × IsConsistent w'
unfolding total_fibers
total_fibers-counts w w' blank steps =
    let v = Steps-IsConsistent w w' steps (IsBlank-IsConsistent w blank) in (v.counted, v)
