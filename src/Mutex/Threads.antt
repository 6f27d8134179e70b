-- ===== src/Mutex/Threads.antt =====
-- mutex.h: threads that share a lock, each with one scope in which it has a guard, interleaved in
-- any order. What a thread does under the lock is left out.
use fxk.Base.{
  update, ℕ, zero, suc, ◌+◌, ◌<◌, Bool, true, false, Option, none, some, List, [], ◌∷◌, length, ◌≡◌,
}
use fxk.Mutex.Locks.{Lockable}
use fxk.Mutex.Guard.{Guard, construct, guard_lock, guard_unlock, destroy}

-- The calls that a scope makes on its guard.
pub data Call : Type 0 where
  lock unlock : Call

-- Before the scope, in it with the guard's `m_locked`, and behind it; with the calls to come.
pub data Thread : Type 0 where
  outside : List Call → Thread
  inside : Bool → List Call → Thread
  gone : Thread

pub record System (Lock : Type 0) : Type 0 where
  pub mutex : Lock
  pub threads : ℕ → Thread

abbrev pub is_locked : Thread → Bool
is_locked (inside locked calls) = locked
is_locked _ = false

abbrev pub is_gone : Thread → Bool
is_gone gone = true
is_gone _ = false

-- The constructor, the calls and the destructor that are to come.
abbrev pub remaining : Thread → ℕ
remaining (outside calls) = 2 + length calls
remaining (inside locked calls) = 1 + length calls
remaining gone = 0

module _ {Lock : Type 0} (ops : Lockable Lock) where
  abbrev pub go_on : List Call → Option (Guard Lock) → Option (Lock × Thread)
  go_on calls none = none
  go_on calls (some g) = some (g.mutex, inside g.locked calls)

  -- The next call of a thread; `none` if it waits for the lock, or has none.
  unfoldable pub advance : Lock → Thread → Option (Lock × Thread)
  unfolding construct guard_lock guard_unlock destroy
  advance m (outside calls) = go_on calls (construct ops m)
  advance m (inside locked (lock ∷ calls)) =
      go_on calls (guard_lock ops (record { mutex = m; locked = locked }))
  advance m (inside locked (unlock ∷ calls)) =
      go_on calls (some (guard_unlock ops (record { mutex = m; locked = locked })))
  advance m (inside locked []) = some (destroy ops (record { mutex = m; locked = locked }), gone)
  advance m gone = none

  abbrev pub put_back : ℕ → (ℕ → Thread) → Option (Lock × Thread) → Option (System Lock)
  put_back i threads none = none
  put_back i threads (some (m, t)) = some (record { mutex = m; threads = update threads i t })

  -- The i-th thread moves.
  unfoldable pub step : ℕ → System Lock → Option (System Lock)
  unfolding advance
  step i s = put_back i s.threads (advance s.mutex (s.threads i))

  -- `k` moves of the first `n` threads.
  pub data Run (n : ℕ) : ℕ → System Lock → System Lock → Type 0 where
    done : (s : System Lock) → Run n 0 s s
    moves :
        {k : ℕ} {s t u : System Lock} (i : ℕ)
        → i < n
        → step i s ≡ some t
        → Run n k t u
        → Run n (suc k) s u

-- The calls to come, of the first `n` threads.
unfoldable pub work : ℕ → (ℕ → Thread) → ℕ
work zero threads = 0
work (suc n) threads = work n threads + remaining (threads n)

-- Before any thread has moved.
abbrev pub start : {Lock : Type 0} → Lock → (ℕ → List Call) → System Lock
start m calls = record { mutex = m; threads = λ i. outside (calls i) }
