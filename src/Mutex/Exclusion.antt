-- ===== src/Mutex/Exclusion.antt =====
-- mutex.h: at most one guard of a lock is locked.
use fxk.Base.{ℕ, Bool, true, false, Option, none, some, List, ◌≡◌, sym, ◌∙◌, arith, ==_iff}
use fxk.Mutex.Locks.{Lockable, IsLock, RwCalls, read_ops, write_ops}
use fxk.Mutex.Threads.{Call, System, is_locked, Run, start}
use fxk.Mutex.Refinement.{is_owner, start-Owns, Run-Owns}

owner_unique : (o : Option ℕ) (i j : ℕ) → is_owner o i ≡ true → is_owner o j ≡ true → i ≡ j
owner_unique none i j h k = ground arith
owner_unique (some l) i j h k = ground (arith, ==_iff l i, ==_iff l j)

module _ {Lock : Type 0} (view : Lock → Option Bool) where
  -- Whatever calls the threads make on their guards, from a free lock on and in any order: two
  -- guards that are locked are one and the same.
  pub guards_exclude :
      (ops : Lockable Lock) (n k : ℕ) (m : Lock) (calls : ℕ → List Call) (t : System Lock)
      → IsLock ops view
      → view m ≡ some false
      → Run ops n k (start m calls) t
      → (i j : ℕ) → is_locked (t.threads i) ≡ true
      → is_locked (t.threads j) ≡ true
      → i ≡ j
  guards_exclude ops n k m calls t laws h r i j a b =
      let (o, v) = Run-Owns ops view laws n k _ t none (start-Owns ops view laws m calls h) r in
      owner_unique o i j (sym (v.locked i) ∙ a) (sym (v.locked j) ∙ b)

  -- Two read guards of an `RWMutex` exclude each other too: if its write lock is exclusive, then in
  -- no order of calls are the read guards of two threads locked at the same time.
  pub readers_exclude :
      (rw_calls : RwCalls Lock) (n k : ℕ) (m : Lock) (calls : ℕ → List Call) (t : System Lock)
      → IsLock (write_ops rw_calls) view
      → view m ≡ some false
      → Run (read_ops rw_calls) n k (start m calls) t
      → (i j : ℕ) → is_locked (t.threads i) ≡ true
      → is_locked (t.threads j) ≡ true
      → i ≡ j
  readers_exclude rw_calls = guards_exclude (read_ops rw_calls)
