-- ===== src/Timer/Reset.antt =====
-- `Timer::reset` of timer.cpp: what its first test, an assignment, makes of it.
use fxk.Base.{
  ℕ, ◌+◌, Bool, true, false, not, ◌&&◌, ==_refl, List, ◌≡◌, ◌≢◌, refl, ◌⊎◌, inl, inr, arith, ◌==◌,
  Bool-cases, Option-cases, if◌then◌else◌,
}
use fxk.Timer.{TimerManager, find, erase_at, insert, update, wrap, wrap_sub, reset}

-- What `addTimer(Timer::ptr, WriteLock&)` is for: it puts the timer into the set.
abbrev pub Links : (ℕ → TimerManager → TimerManager) → Type 0
Links link = (a : ℕ) (m : TimerManager) → link a m ≡ record m { timers = insert m.store a m.timers }

module _ (link : ℕ → TimerManager → TimerManager) where
  changed : ℕ → ℕ → Bool → TimerManager → List ℕ → Bool × TimerManager
  unfolding reset
  changed now a from_now m rest =
      let t = m.store a in
      let start = if from_now then now else wrap_sub t.next t.ms in
      (
        true,
        link a (record {
          store = update m.store a (record t { ms = 0; next = wrap (start + 0) });
          timers = rest;
        }),
      )

  -- The three ways through `reset`: its early success, its two failures, and the change.
  reset_cases :
      (now a ms : ℕ) (from_now : Bool) (m : TimerManager)
      → ((reset link now a ms from_now m ≡ (true, m))
          × ((not ((m.store a).ms == 0) && not from_now) ≡ true))
        ⊎ (reset link now a ms from_now m ≡ (false, m))
        ⊎ ((rest : List ℕ) × (reset link now a ms from_now m ≡ changed now a from_now m rest))
  unfolding reset changed
  reset_cases now a ms from_now m = elim (Bool-cases (not ((m.store a).ms == 0) && not from_now)) [
    | inl early ↦ inl (rw early, early)
    | inr late ↦ elim (Option-cases (m.store a).cb) [
      | inl e ↦ inr (inl (ground arith))
      | inr (c, e) ↦ elim (Option-cases (find m.store a m.timers)) [
        | inl p ↦ inr (inl (ground arith))
        | inr (i, p) ↦ inr (inr (erase_at i m.timers, ground arith))
      ]
    ]
  ]

  -- The period that `reset` is given has no effect: any two give the same result. That result is
  -- one of three: success with nothing changed, for a timer with a period other than 0 that is not
  -- to start from now; failure with nothing changed; or success with the timer's period 0
  -- afterwards. It is supposed that `link` puts the timer into the set.
  pub reset_ignores_ms :
      (now a ms ms' : ℕ) (from_now : Bool) (m : TimerManager)
      → Links link
      → (reset link now a ms from_now m ≡ reset link now a ms' from_now m)
        × (((reset link now a ms from_now m ≡ (true, m))
              × ((m.store a).ms ≢ 0)
              × (from_now ≡ false))
            ⊎ (reset link now a ms from_now m ≡ (false, m))
            ⊎ (((reset link now a ms from_now m).0 ≡ true)
                × (((reset link now a ms from_now m).1.store a).ms ≡ 0)))
  unfolding reset changed
  reset_ignores_ms now a ms ms' from_now m links = (
    refl,
    elim (reset_cases now a ms from_now m) [
      | inl (e, h) ↦ inl (e, ground arith, ground arith)
      | inr (inl e) ↦ inr (inl e)
      | inr (inr (rest, e)) ↦ inr (inr (rw e refl, rw e (rw links (rw (==_refl a)))))
    ],
  )
