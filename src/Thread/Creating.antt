-- ===== src/Thread/Creating.antt =====
-- thread.cpp: `Thread::Thread` and `Thread::run`, side by side.
use mathlib.Core.Path.{subst}
use fxk.Base.{
  ℕ, suc, ◌+◌, ◌<◌, Bool, true, false, Option, none, some, Bytes, take, ==_refl, ◌≡◌, ap, ◌⊎◌,
  arith,
}
use fxk.Thread.{
  Thread, Locals, World, put, RunPc, sets_this, sets_name, sets_id, sets_kernel_name, swaps,
  notifies, calls, run_step, wait_step,
}

-- The constructor, which has returned or waits, and the new thread.
pub record Creation : Type 0 where
  pub pc : RunPc
  pub returned : Bool
  pub world : World

module _ (a tid : ℕ) where
  -- `k` moves of the two; in between, other threads do what they like elsewhere.
  pub data Moves : ℕ → Creation → Creation → Type 0 where
    done : (c : Creation) → Moves 0 c c
    runs :
        {k : ℕ} {c d : Creation} (pc : RunPc) (w : World)
        → run_step a tid c.pc c.world ≡ some (pc, w)
        → Moves k (record { pc = pc; returned = c.returned; world = w }) d
        → Moves (suc k) c d
    returns :
        {k : ℕ} {c d : Creation} (w : World)
        → c.returned ≡ false
        → wait_step a c.world ≡ some w
        → Moves k (record { pc = c.pc; returned = true; world = w }) d
        → Moves (suc k) c d
    elsewhere :
        {k : ℕ} {c d : Creation} (w : World)
        → w.threads a ≡ c.world.threads a
        → w.locals tid ≡ c.world.locals tid
        → w.kernel_names tid ≡ c.world.kernel_names tid
        → Moves k (record { pc = c.pc; returned = c.returned; world = w }) d
        → Moves k c d

  -- Either of the two can go on.
  abbrev pub CanMove : Creation → Type 0
  CanMove c =
      ((pc : RunPc) × (w : World) × (run_step a tid c.pc c.world ≡ some (pc, w)))
      ⊎ ((w : World) × (wait_step a c.world ≡ some w))

  module _ (cb : ℕ) (name : Bytes) where
    -- The new thread knows its object and its name, and the object knows the thread.
    pub record IsStarted (t : Thread) (l : Locals) (in_kernel_name : Bytes) : Type 0 where
      pub this : l.this ≡ some a
      pub named : l.name ≡ name
      pub id : t.id ≡ tid
      pub in_kernel : in_kernel_name ≡ take 15 name

    -- What the statements of `run` up to the next one have done.
    abbrev pub Before : RunPc → Thread → Locals → Bytes → Type 0
    Before sets_this t l n = t.cb ≡ some cb
    Before sets_name t l n = (t.cb ≡ some cb) × (l.this ≡ some a)
    Before sets_id t l n = (t.cb ≡ some cb) × (l.this ≡ some a) × (l.name ≡ name)
    Before sets_kernel_name t l n =
        (t.cb ≡ some cb) × (l.this ≡ some a) × (l.name ≡ name) × (t.id ≡ tid)
    Before swaps t l n = (t.cb ≡ some cb) × IsStarted t l n
    Before (notifies c) t l n = (c ≡ some cb) × (t.cb ≡ none) × IsStarted t l n
    Before (calls c) t l n = (c ≡ some cb) × (t.cb ≡ none) × IsStarted t l n

    -- The moves so far.
    abbrev pub moved : RunPc → ℕ
    moved sets_this = 0
    moved sets_name = 1
    moved sets_id = 2
    moved sets_kernel_name = 3
    moved swaps = 4
    moved (notifies c) = 5
    moved (calls c) = 6

    -- The semaphore's count, while the constructor waits and behind it.
    abbrev pub Notified : RunPc → Bool → ℕ → Type 0
    Notified (calls c) true n = n ≡ 0
    Notified (calls c) false n = n ≡ 1
    Notified _ true n = ⊥
    Notified _ false n = n ≡ 0

    pub record InvAt (pc : RunPc) (returned : Bool) (t : Thread) (l : Locals) (n : Bytes)
        : Type 0 where
      pub before : Before pc t l n
      pub notified : Notified pc returned t.semaphore
      pub named : t.name ≡ name

    abbrev pub Inv : RunPc → Bool → World → Type 0
    Inv pc returned w = InvAt pc returned (w.threads a) (w.locals tid) (w.kernel_names tid)

    abbrev Next : RunPc → Bool → Option (RunPc × World) → Type 0
    Next pc returned none = pc ≡ calls (some cb)
    Next pc returned (some (pc', w')) = Inv pc' returned w' × (moved pc' ≡ 1 + moved pc)

    run_step-Next :
        (pc : RunPc) (returned : Bool) (w : World)
        → Inv pc returned w
        → Next pc returned (run_step a tid pc w)
    unfolding run_step
    run_step-Next sets_this false w v = ground (arith, ==_refl a, ==_refl tid)
    run_step-Next sets_name false w v = ground (arith, ==_refl a, ==_refl tid)
    run_step-Next sets_id false w v = ground (arith, ==_refl a, ==_refl tid)
    run_step-Next sets_kernel_name false w v = ground (arith, ==_refl a, ==_refl tid)
    run_step-Next swaps false w v = ground (arith, ==_refl a, ==_refl tid)
    run_step-Next (notifies c) false w v = ground (arith, ==_refl a, ==_refl tid)
    run_step-Next (calls c) returned w v = ap calls v.before.0
    run_step-Next sets_this true w v = elim v.notified [ ]
    run_step-Next sets_name true w v = elim v.notified [ ]
    run_step-Next sets_id true w v = elim v.notified [ ]
    run_step-Next sets_kernel_name true w v = elim v.notified [ ]
    run_step-Next swaps true w v = elim v.notified [ ]
    run_step-Next (notifies c) true w v = elim v.notified [ ]

    abbrev NextWait : RunPc → Option World → Type 0
    NextWait pc none = (moved pc < 6)
    NextWait pc (some w') = Inv pc true w'

    wait_step_zero : (w : World) → (w.threads a).semaphore ≡ 0 → wait_step a w ≡ none
    unfolding wait_step
    wait_step_zero w h = ground arith

    pub wait_step_one :
        (w : World)
        → (w.threads a).semaphore ≡ 1
        → wait_step a w ≡ some (put a (record (w.threads a) { semaphore = 0 }) w)
    unfolding wait_step
    wait_step_one w h = ground arith

    wait_step-Next : (pc : RunPc) (w : World) → Inv pc false w → NextWait pc (wait_step a w)
    wait_step-Next (calls c) w v = rw (wait_step_one w v.notified) (ground (arith, ==_refl a))
    wait_step-Next sets_this w v = rw (wait_step_zero w v.notified) (omega arith)
    wait_step-Next sets_name w v = rw (wait_step_zero w v.notified) (omega arith)
    wait_step-Next sets_id w v = rw (wait_step_zero w v.notified) (omega arith)
    wait_step-Next sets_kernel_name w v = rw (wait_step_zero w v.notified) (omega arith)
    wait_step-Next swaps w v = rw (wait_step_zero w v.notified) (omega arith)
    wait_step-Next (notifies c) w v = rw (wait_step_zero w v.notified) (omega arith)

    -- What other threads do elsewhere is not seen.
    Inv-elsewhere :
        (pc : RunPc) (returned : Bool) (w w' : World)
        → w'.threads a ≡ w.threads a
        → w'.locals tid ≡ w.locals tid
        → w'.kernel_names tid ≡ w.kernel_names tid
        → Inv pc returned w
        → Inv pc returned w'
    Inv-elsewhere pc returned w w' e f g v = rw (e, f, g) v

    abbrev pub bit : Bool → ℕ
    bit true = 1
    bit false = 0

    abbrev pub Counted : ℕ → Creation → Type 0
    Counted n c = Inv c.pc c.returned c.world × (moved c.pc + bit c.returned ≡ n)

    pub Moves-Counted : (k n : ℕ) (c d : Creation) → Moves k c d → Counted n c → Counted (n + k) d
    Moves-Counted k n c d (done _) v = (v.0, omega (arith, v.1))
    Moves-Counted k n c d (runs {k = j} pc w e rest) v =
        let (v', m) = subst (Next c.pc c.returned) e (run_step-Next c.pc c.returned c.world v.0) in
        let (v'', m') = Moves-Counted j (suc n) _ d rest (v', omega (arith, v.1, m)) in
        (v'', omega (arith, m'))
    Moves-Counted k n c d (returns {k = j} w h e rest) v =
        let waiting = subst (λ (b : Bool). Inv c.pc b c.world) h v.0 in
        let v' = subst (NextWait c.pc) e (wait_step-Next c.pc c.world waiting) in
        let (v'', m') = Moves-Counted j (suc n) _ d rest (v', omega (arith, v.1, ap bit h)) in
        (v'', omega (arith, m'))
    Moves-Counted k n c d (elsewhere w e f g rest) v =
        Moves-Counted k n _ d rest (Inv-elsewhere c.pc c.returned c.world w e f g v.0, v.1)
