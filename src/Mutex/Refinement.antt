-- ===== src/Mutex/Refinement.antt =====
-- mutex.h: threads with guards on one lock, against a lock that is nothing but its owner.
use mathlib.Core.Path.{subst}
use fxk.Base.{
  update, ℕ, ◌+◌, Bool, true, false, Option, none, some, List, [], ◌∷◌, ◌==◌, is_set, ◌≡◌, refl,
  sym, ap, ◌∙◌, ◌⊎◌, inl, inr, arith, ==_iff,
}
use fxk.Mutex.Locks.{Lockable, IsLock}
use fxk.Mutex.Guard.{construct, guard_lock, guard_unlock, destroy}
use fxk.Mutex.Threads.{
  Call, lock, unlock, Thread, outside, inside, gone, System, is_locked, is_gone, remaining, advance,
  put_back, step, Run, done, moves, start,
}

abbrev pub is_owner : Option ℕ → ℕ → Bool
is_owner none i = false
is_owner (some j) i = j == i

-- The i-th thread has the lock while nobody had it, or gives it back where it had it.
pub data OwnerStep (i : ℕ) : Option ℕ → Option ℕ → Type 0 where
  acquire : OwnerStep i none (some i)
  release : OwnerStep i (some i) none

-- What a call of one thread does to the lock and to the thread.
pub data Effect {Lock : Type 0} (view : Lock → Option Bool) (m m' : Lock) (t t' : Thread)
    : Type 0 where
  keeps : m ≡ m' → is_locked t ≡ is_locked t' → Effect view m m' t t'
  acquires :
      view m ≡ some false
      → is_locked t ≡ false
      → view m' ≡ some true
      → is_locked t' ≡ true
      → Effect view m m' t t'
  frees : is_locked t ≡ true → is_locked t' ≡ false → view m' ≡ some false → Effect view m m' t t'

module _ {Lock : Type 0} (ops : Lockable Lock) (view : Lock → Option Bool) where
  -- A thread waits only if another holds the lock, or if it is gone.
  abbrev pub Moves : Lock → Thread → Option (Lock × Thread) → Type 0
  Moves m t none = ((view m ≡ some true) × (is_locked t ≡ false)) ⊎ (is_gone t ≡ true)
  Moves m t (some (m', t')) = Effect view m m' t t' × (remaining t ≡ 1 + remaining t')

  -- The lock is held where it has an owner, and the owner is the one whose guard has it locked.
  pub record Owns (s : System Lock) (o : Option ℕ) : Type 0 where
    pub held : view s.mutex ≡ some (is_set o)
    pub locked : (i : ℕ) → is_locked (s.threads i) ≡ is_owner o i

  Owned : ℕ → Option ℕ → System Lock → Type 0
  Owned i o s = (o' : Option ℕ) × (OwnerStep i o o' ⊎ (o ≡ o')) × Owns s o'

  owner-true : (o : Option ℕ) (i : ℕ) → is_owner o i ≡ true → o ≡ some i
  owner-true none i h = ground arith
  owner-true (some j) i h = ground (arith, ==_iff j i)

  -- The effect of a thread's call is a step of the owner, or none.
  Effect-Owned :
      (i : ℕ) (s : System Lock) (m' : Lock) (t' : Thread) (o : Option ℕ)
      → Owns s o
      → Effect view s.mutex m' (s.threads i) t'
      → Owned i o (record { mutex = m'; threads = update s.threads i t' })
  unfolding Owned
  Effect-Owned i s m' t' o v (keeps e f) = (
    o,
    inr refl,
    record {
      held = ap view (sym e) ∙ v.held;
      locked = λ j. ground (arith, v.locked j, ==_iff i j, f);
    },
  )
  Effect-Owned i s m' t' none v (acquires a b c d) = (
    some i,
    inl acquire,
    record { held = c; locked = λ j. ground (arith, v.locked j, ==_iff i j, d) },
  )
  Effect-Owned i s m' t' (some k) v (acquires a b c d) = ground (arith, v.held)
  Effect-Owned i s m' t' o v (frees a b c) =
      let e = owner-true o i (sym (v.locked i) ∙ a) in
      (
        none,
        inl (rw e release),
        record { held = c; locked = λ j. ground (arith, v.locked j, ==_iff i j, e, b) },
      )

  module _ (laws : IsLock ops view) where
    lock-cases :
        (m : Lock) (b : Bool)
        → view m ≡ some b
        → ((view m ≡ some true) × (ops.lock m ≡ none))
          ⊎ ((m' : Lock) × (ops.lock m ≡ some m') × (view m ≡ some false) × (view m' ≡ some true))
    lock-cases m true h = inl (h, laws.waits m h)
    lock-cases m false h = let (m', e, h') = laws.acquires m h in inr (m', e, h, h')

    pub advance-Moves :
        (m : Lock) (b : Bool) (t : Thread)
        → view m ≡ some b
        → (is_locked t ≡ true → view m ≡ some true)
        → Moves m t (advance ops m t)
    unfolding advance construct guard_lock guard_unlock destroy
    advance-Moves m b (outside calls) q h = elim (lock-cases m b q) [
      | inl (w, e) ↦ rw e (inl (w, refl))
      | inr (m1, e, f, g) ↦ rw e (acquires f refl g refl, omega arith)
    ]
    advance-Moves m b (inside true (lock ∷ calls)) q h = (keeps refl refl, omega arith)
    advance-Moves m b (inside false (lock ∷ calls)) q h = elim (lock-cases m b q) [
      | inl (w, e) ↦ rw e (inl (w, refl))
      | inr (m1, e, f, g) ↦ rw e (acquires f refl g refl, omega arith)
    ]
    advance-Moves m b (inside true (unlock ∷ calls)) q h =
        (frees refl refl (laws.frees m (h refl)), omega arith)
    advance-Moves m b (inside false (unlock ∷ calls)) q h = (keeps refl refl, omega arith)
    advance-Moves m b (inside true []) q h = (frees refl refl (laws.frees m (h refl)), omega arith)
    advance-Moves m b (inside false []) q h = (keeps refl refl, omega arith)
    advance-Moves m b gone q h = inr refl

    held-locked :
        (i : ℕ) (s : System Lock) (o : Option ℕ)
        → Owns s o
        → is_locked (s.threads i) ≡ true
        → view s.mutex ≡ some true
    held-locked i s o v h =
        v.held ∙ ap (λ (p : Option ℕ). some (is_set p)) (owner-true o i (sym (v.locked i) ∙ h))

    pub next-Moves :
        (i : ℕ) (s : System Lock) (o : Option ℕ)
        → Owns s o
        → Moves s.mutex (s.threads i) (advance ops s.mutex (s.threads i))
    next-Moves i s o v = advance-Moves s.mutex (is_set o) (s.threads i) v.held (held-locked i s o v)

    put_back-Owned :
        (i : ℕ) (s t : System Lock) (o : Option ℕ) (r : Option (Lock × Thread))
        → Owns s o
        → Moves s.mutex (s.threads i) r
        → put_back ops i s.threads r ≡ some t
        → Owned i o t
    put_back-Owned i s t o none v mv e = ground arith
    put_back-Owned i s t o (some (m', t')) v mv e =
        subst (Owned i o) (ground arith) (Effect-Owned i s m' t' o v mv.0)

    -- A move of the i-th thread acquires the lock, which nobody had, releases the lock, which it
    -- had, or leaves its owner as it was.
    pub step-refines :
        (i : ℕ) (s t : System Lock) (o : Option ℕ)
        → Owns s o
        → step ops i s ≡ some t
        → (o' : Option ℕ) × (OwnerStep i o o' ⊎ (o ≡ o')) × Owns t o'
    unfolding step Owned
    step-refines i s t o v e = put_back-Owned i s t o _ v (next-Moves i s o v) e

    pub start-Owns :
        (m : Lock) (calls : ℕ → List Call) → view m ≡ some false → Owns (start m calls) none
    start-Owns m calls h = record { held = h; locked = λ i. refl }

    pub Run-Owns :
        (n k : ℕ) (s t : System Lock) (o : Option ℕ)
        → Owns s o
        → Run ops n k s t
        → (o' : Option ℕ) × Owns t o'
    Run-Owns n k s t o v (done _) = (o, v)
    Run-Owns n k s t o v (moves {t = u} i _ e rest) =
        let (o', l, v') = step-refines i s u o v e in Run-Owns n _ u t o' v' rest

    -- Whatever calls the threads make on their guards, from a free lock on and in any order: at the
    -- start nobody owns the lock, and each move of a thread that can follow on a run is a step of
    -- the abstract lock, or leaves its owner as it was. The abstract lock is acquired by a thread
    -- only while nobody has it, and released only by the thread that has it. To have an owner is to
    -- be locked, and a guard believes that it is locked exactly where its thread is the owner,
    -- before the move and behind it.
    pub Run-refines :
        (n k : ℕ) (m : Lock) (calls : ℕ → List Call) (t u : System Lock) (i : ℕ)
        → view m ≡ some false
        → Run ops n k (start m calls) t
        → step ops i t ≡ some u
        → Owns (start m calls) none
          × ((o o' : Option ℕ) × Owns t o × Owns u o' × (OwnerStep i o o' ⊎ (o ≡ o')))
    Run-refines n k m calls t u i h r e =
        let (o, v) = Run-Owns n k _ t none (start-Owns m calls h) r in
        let (o', l, v') = step-refines i t u o v e in (start-Owns m calls h, (o, o', v, v', l))
