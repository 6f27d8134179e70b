-- ===== src/Tests/MutexTests.antt =====
-- Locks and guards on concrete inputs.
use fxk.Base.{
  ℕ, ◌+◌, ◌-◌, ◌<◌, Bool, true, false, Option, none, some, List, [], ◌∷◌, ◌==◌, ltb, if◌then◌else◌,
  update, ◌≡◌, refl, ◌⊎◌, arith,
}
use fxk.Mutex.Locks.{
  IsLock, RwCalls, read_ops, write_ops, cas_ops, null_ops, new_cas_lock, cas_lock, cas_unlock,
  cas_ops-IsLock,
}
use fxk.Mutex.Threads.{
  Call, lock, unlock, inside, outside, System, step, Run, done, moves, work, start,
}
use fxk.Mutex.Refinement.{OwnerStep, Owns, Run-refines}
use fxk.Mutex.Exclusion.{readers_exclude}
use fxk.Mutex.Progress.{AllGone, Run-finishes}

abbrev flag_view : Bool → Option Bool
flag_view flag = some flag

-- Both threads unlock their guards early; thread 1 locks it again.
abbrev calls : ℕ → List Call
calls i = if i == 0 then unlock ∷ [] else unlock ∷ lock ∷ []

abbrev first : System Bool
first = record {
  mutex = true;
  threads = update (λ i. outside (calls i)) 0 (inside true (unlock ∷ []));
}

abbrev second : System Bool
second = record { mutex = false; threads = update first.threads 0 (inside false []) }

abbrev third : System Bool
third = record {
  mutex = true;
  threads = update second.threads 1 (inside true (unlock ∷ lock ∷ []));
}

thread_1_waits : step cas_ops 1 first ≡ none
unfolding step cas_lock cas_unlock
thread_1_waits = refl

three_moves : Run cas_ops 2 3 (start new_cas_lock calls) third
unfolding step cas_lock cas_unlock
three_moves =
    moves {t = first} 0 (omega arith) refl
      (moves {t = second} 0 (omega arith) refl (moves 1 (omega arith) refl (done _)))

abbrev fourth : System Bool
fourth = record { mutex = false; threads = update third.threads 1 (inside false (lock ∷ [])) }

-- Thread 1 unlocks its guard, behind the three moves.
fourth_move : step cas_ops 1 third ≡ some fourth
unfolding step cas_unlock
fourth_move = refl

Run-refines_example :
    Owns cas_ops flag_view (start new_cas_lock calls) none
    × ((o o' : Option ℕ) × Owns cas_ops flag_view third o
        × Owns cas_ops flag_view fourth o'
        × (OwnerStep 1 o o' ⊎ (o ≡ o')))
Run-refines_example =
    Run-refines cas_ops flag_view cas_ops-IsLock 2 3 new_cas_lock calls third fourth 1 refl
      three_moves fourth_move

Run-finishes_example :
    (AllGone 2 third.threads
      × (flag_view third.mutex ≡ some false)
      × (3 ≡ work 2 (λ i. outside (calls i))))
    ⊎ ((i : ℕ) × (i < 2)
        × (u : System Bool) × (step cas_ops i third ≡ some u)
        × (3 < work 2 (λ i. outside (calls i))))
Run-finishes_example =
    Run-finishes cas_ops flag_view cas_ops-IsLock 2 3 new_cas_lock calls third refl three_moves

-- A lock of readers and writers: 0 is free, 1 is a writer, n + 1 are n readers.
abbrev rw_calls : RwCalls ℕ
rw_calls = record {
  rdlock = λ m. if m == 1 then none else if m == 0 then some 2 else some (m + 1);
  wrlock = λ m. if m == 0 then some 1 else none;
  unlock = λ m. if ltb 2 m then m - 1 else 0;
}

abbrev rw_view : ℕ → Option Bool
rw_view m = if m == 0 then some false else if m == 1 then some true else none

rw_calls-IsLock : IsLock (write_ops rw_calls) rw_view
rw_calls-IsLock = record {
  acquires = λ m h. (1, ground arith, refl);
  waits = λ m h. ground arith;
  frees = λ m h. ground arith;
}

-- The lock itself lets two readers in.
two_readers : (rw_calls.rdlock 0 ≡ some 2) × (rw_calls.rdlock 2 ≡ some 3)
two_readers = (refl, refl)

abbrev reading : System ℕ
reading = record { mutex = 1; threads = update (λ i. outside []) 0 (inside true []) }

one_move : Run (read_ops rw_calls) 2 1 (start 0 (λ i. [])) reading
unfolding step
one_move = moves 0 (omega arith) refl (done _)

readers_exclude_example : ◌≡◌ {A = ℕ} 0 0
readers_exclude_example =
    readers_exclude rw_view rw_calls 2 1 0 (λ i. []) reading rw_calls-IsLock refl one_move 0 0 refl
      refl

-- The second reader waits.
reader_waits : step (read_ops rw_calls) 1 reading ≡ none
unfolding step
reader_waits = refl

-- Guards of a `NullMutex` let both in.
abbrev null_both : System (Unit {0})
null_both = record {
  mutex = tt;
  threads = update (update (λ i. outside []) 0 (inside true [])) 1 (inside true []);
}

null_lets_both_in : Run null_ops 2 2 (start tt (λ i. [])) null_both
unfolding step
null_lets_both_in = moves 0 (omega arith) refl (moves 1 (omega arith) refl (done _))
