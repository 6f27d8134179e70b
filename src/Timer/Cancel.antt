-- ===== src/Timer/Cancel.antt =====
-- `Timer::cancel` and `Timer::refresh` of timer.cpp on a set in order.
use fxk.Base.{
  Bool-cases, ◌⊎◌, ℕ, ◌+◌, true, false, not, ◌&&◌, none, List, [], ◌∷◌, ◌≡◌, refl, ◌∙◌, inl, inr,
  arith, ◌==◌, ==_refl, All, Option-cases, if◌then◌else◌, is_set, ok, err, bad_iterator,
}
use fxk.Timer.{Timer, TimerManager, less, insert, update, wrap, cancel, refresh}
use fxk.Timer.TimerSet.{
  IsSorted, member, remove, find_sound, member-remove, remove-IsSorted, insert-IsSorted,
  member-insert, update-IsSorted,
}

-- The set is in order, and holds armed timers only.
pub record IsWellFormed (m : TimerManager) : Type 0 where
  pub sorted : IsSorted m.store m.timers
  pub armed : (a : ℕ) → member a m.timers ≡ true → is_set (m.store a).cb ≡ true

-- A change that keeps the time keeps the order.
less-update_next :
    (s : ℕ → Timer) (a : ℕ) (t : Timer) (x y : ℕ)
    → t.next ≡ (s a).next
    → less (update s a t) x y ≡ less s x y
unfolding less
less-update_next s a t x y e = ground arith

All-update_next :
    (s : ℕ → Timer) (a : ℕ) (t : Timer) (x : ℕ) (xs : List ℕ)
    → t.next ≡ (s a).next
    → All (λ y. less s x y ≡ true) xs
    → All (λ y. less (update s a t) x y ≡ true) xs
All-update_next s a t x [] e h = tt
All-update_next s a t x (y ∷ ys) e h =
    (less-update_next s a t x y e ∙ h.0, All-update_next s a t x ys e h.1)

update_next-IsSorted :
    (s : ℕ → Timer) (a : ℕ) (t : Timer) (xs : List ℕ)
    → t.next ≡ (s a).next
    → IsSorted s xs
    → IsSorted (update s a t) xs
update_next-IsSorted s a t [] e h = tt
update_next-IsSorted s a t (x ∷ xs) e h =
    (All-update_next s a t x xs e h.0, update_next-IsSorted s a t xs e h.1)

abbrev pub disarm : ℕ → TimerManager → ℕ → Timer
disarm a m = update m.store a (record (m.store a) { cb = none })

-- On a set in order, `cancel` does nothing to a timer with no callback and answers false. From a
-- timer with a callback it takes the callback, and takes the timer out of the set and answers
-- true if the set holds it; if it does not, the code erases `end()`.
pub cancel_lem :
    (a : ℕ) (m : TimerManager)
    → IsSorted m.store m.timers
    → cancel a m ≡ (
        if is_set (m.store a).cb
        then if member a m.timers
          then ok (true, record { store = disarm a m; timers = remove a m.timers })
          else err bad_iterator
        else ok (false, m))
unfolding cancel
cancel_lem a m h =
    elim (find_sound (disarm a m) a m.timers (update_next-IsSorted m.store a _ m.timers refl h)) [
      | inl (p, q) ↦ elim (Option-cases (m.store a).cb) [
        | inl e ↦ rw (e, cancel)
        | inr (c, e) ↦ rw (e, p, q, cancel)
      ]
      | inr (i, p, q, r) ↦ elim (Option-cases (m.store a).cb) [
        | inl e ↦ rw (e, cancel)
        | inr (c, e) ↦ rw (e, p, q, r, cancel)
      ]
    ]

disarm-IsWellFormed :
    (a : ℕ) (m : TimerManager)
    → IsWellFormed m
    → IsWellFormed (record { store = disarm a m; timers = remove a m.timers })
disarm-IsWellFormed a m w = record {
  sorted = update_next-IsSorted m.store a _ _ refl (remove-IsSorted m.store a m.timers w.sorted);
  armed = λ b h. ground (arith, member-remove m.store a b m.timers w.sorted, w.armed b);
}

-- Of a timer that the set holds, in a well-formed manager, `cancel` answers true; the manager is
-- well-formed after it, the set holds the other timers as before, and no longer this one; and a
-- second `cancel` answers false and changes nothing.
pub cancel_once :
    (a : ℕ) (m : TimerManager)
    → IsWellFormed m
    → member a m.timers ≡ true
    → (m' : TimerManager) × (cancel a m ≡ ok (true, m'))
      × IsWellFormed m'
      × ((b : ℕ) → member b m'.timers ≡ (not (a == b) && member b m.timers))
      × (cancel a m' ≡ ok (false, m'))
cancel_once a m w h =
    let m' : TimerManager = record { store = disarm a m; timers = remove a m.timers } in
    let w' = disarm-IsWellFormed a m w in
    (
      m',
      rw (cancel_lem a m w.sorted, w.armed a h, h),
      w',
      (λ b. member-remove m.store a b m.timers w.sorted),
      rw (cancel_lem a m' w'.sorted, ==_refl a),
    )

-- What `refresh` leaves, if it finds the timer.
abbrev pub refreshed : ℕ → ℕ → TimerManager → TimerManager
refreshed now a m =
    let store = update m.store a (record (m.store a) { next = wrap (now + (m.store a).ms) }) in
    record { store = store; timers = insert store a (remove a m.timers) }

refresh_held :
    (now a : ℕ) (m : TimerManager)
    → IsWellFormed m
    → member a m.timers ≡ true
    → refresh now a m ≡ (true, refreshed now a m)
unfolding refresh
refresh_held now a m w h = elim (find_sound m.store a m.timers w.sorted) [
  | inl (_, q) ↦ absurd (ground arith)
  | inr (i, p, _, r) ↦ elim (Option-cases (m.store a).cb) [
    | inl e ↦ absurd (ground (arith, w.armed a h))
    | inr (c, e) ↦ ground arith
  ]
]

refreshed-member :
    (now a b : ℕ) (m : TimerManager)
    → IsWellFormed m
    → member a m.timers ≡ true
    → member b (refreshed now a m).timers ≡ member b m.timers
refreshed-member now a b m w h = ground (
  arith,
  member-insert (refreshed now a m).store a b (remove a m.timers),
  member-remove m.store a b m.timers w.sorted,
)

refresh_absent :
    (now a : ℕ) (m : TimerManager)
    → IsWellFormed m
    → member a m.timers ≡ false
    → refresh now a m ≡ (false, m)
unfolding refresh
refresh_absent now a m w h = elim (find_sound m.store a m.timers w.sorted) [
  | inl (p, q) ↦ ground arith
  | inr (i, p, q, r) ↦ absurd (ground arith)
]

refreshed-IsWellFormed :
    (now a : ℕ) (m : TimerManager)
    → IsWellFormed m
    → member a m.timers ≡ true
    → IsWellFormed (refreshed now a m)
refreshed-IsWellFormed now a m w h = record {
  sorted = insert-IsSorted _ a _ (
      update-IsSorted m.store a _ (remove a m.timers)
        (ground (arith, member-remove m.store a a m.timers w.sorted))
        (remove-IsSorted m.store a m.timers w.sorted));
  armed = λ b k. ground (arith, w.armed b, refreshed-member now a b m w h);
}

-- In a well-formed manager `refresh` answers false and changes nothing for a timer outside the
-- set. For one in the set it answers true, the timer fires `ms` after now (as a uint64_t), the
-- other timers and the members of the set are what they were, and the manager is well-formed.
pub refresh_lem :
    (now a : ℕ) (m : TimerManager)
    → IsWellFormed m
    → ((member a m.timers ≡ false) × (refresh now a m ≡ (false, m)))
      ⊎ ((member a m.timers ≡ true)
          × (((refresh now a m).0 ≡ true)
              × (((refresh now a m).1.store a).next ≡ wrap (now + (m.store a).ms))
              × ((b : ℕ)
                  → (refresh now a m).1.store b
                    ≡ (if a == b then (refresh now a m).1.store a else m.store b))
              × ((b : ℕ) → member b (refresh now a m).1.timers ≡ member b m.timers)
              × IsWellFormed (refresh now a m).1))
refresh_lem now a m w = elim (Bool-cases (member a m.timers)) [
  | inr h ↦ inl (h, refresh_absent now a m w h)
  | inl h ↦ inr (
    h,
    rw (refresh_held now a m w h) (
      refl,
      ground arith,
      (λ b. ground arith),
      (λ b. refreshed-member now a b m w h),
      refreshed-IsWellFormed now a m w h,
    ),
  )
]
