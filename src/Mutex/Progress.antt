-- ===== src/Mutex/Progress.antt =====
-- mutex.h: threads with guards on one lock do not block each other for ever.
use mathlib.Core.Path.{subst}
use fxk.Base.{
  update, ℕ, zero, suc, ◌+◌, ◌≤◌, ◌<◌, Bool, true, false, Option, none, some, List, ◌==◌, ◌≡◌, refl,
  sym, ap, ◌∙◌, ◌⊎◌, inl, inr, arith, Bool-cases, ==_iff, ==_refl,
}
use fxk.Mutex.Locks.{Lockable, IsLock}
use fxk.Mutex.Threads.{
  Call, Thread, outside, inside, gone, System, is_locked, is_gone, remaining, put_back, step, Run,
  done, moves, work, start,
}
use fxk.Mutex.Refinement.{
  Owns, OwnerStep, acquire, release, Moves, next-Moves, step-refines, start-Owns,
}

-- Every one of the first `n` threads is behind its scope.
abbrev pub AllGone : ℕ → (ℕ → Thread) → Type 0
AllGone zero threads = Unit
AllGone (suc n) threads = AllGone n threads × (is_gone (threads n) ≡ true)

find_thread :
    (n : ℕ) (threads : ℕ → Thread)
    → AllGone n threads ⊎ ((i : ℕ) × (i < n) × (is_gone (threads i) ≡ false))
find_thread zero threads = inl tt
find_thread (suc n) threads = elim (Bool-cases (is_gone (threads n))) [
  | inr h ↦ inr (n, omega arith, h)
  | inl h ↦ elim (find_thread n threads) [
    | inl all ↦ inl (all, h)
    | inr (i, b, e) ↦ inr (i, omega (arith, b), e)
  ]
]

gone_at :
    (n : ℕ) (threads : ℕ → Thread) (i : ℕ) → AllGone n threads → i < n → is_gone (threads i) ≡ true
gone_at zero threads i all b = elim b [ ]
gone_at (suc n) threads i all b = elim (Bool-cases (i == n)) [
  | inl h ↦ ground (arith, all.1, ==_iff i n)
  | inr h ↦ gone_at n threads i all.0 (ground (arith, b, ==_iff i n))
]

remaining-gone : (t : Thread) → is_gone t ≡ true → remaining t ≡ 0
remaining-gone gone h = refl
remaining-gone (outside calls) h = ground arith
remaining-gone (inside locked calls) h = ground arith

locked_stays : (t : Thread) → is_locked t ≡ true → is_gone t ≡ false
locked_stays (inside locked calls) h = refl
locked_stays (outside calls) h = refl
locked_stays gone h = ground arith

work-AllGone : (n : ℕ) (threads : ℕ → Thread) → AllGone n threads → work n threads ≡ 0
unfolding work
work-AllGone zero threads all = refl
work-AllGone (suc n) threads all =
    omega (arith, work-AllGone n threads all.0, remaining-gone (threads n) all.1)

work-update_above :
    (n : ℕ) (threads : ℕ → Thread) (i : ℕ) (t : Thread)
    → n ≤ i
    → work n (update threads i t) ≡ work n threads
unfolding work
work-update_above zero threads i t b = refl
work-update_above (suc n) threads i t b =
    ground (arith, work-update_above n threads i t, ==_iff i n)

work-update :
    (n : ℕ) (threads : ℕ → Thread) (i : ℕ) (t : Thread)
    → i < n
    → work n (update threads i t) + remaining (threads i) ≡ work n threads + remaining t
unfolding work
work-update zero threads i t b = elim b [ ]
work-update (suc n) threads i t b = elim (Bool-cases (i == n)) [
  | inl h ↦
      let e : remaining (threads i) ≡ remaining (threads n) =
        ap (λ j. remaining (threads j)) ((==_iff i n).0 h) in
      rw h (omega (arith, work-update_above n threads i t, e, (==_iff i n).0 h))
  | inr h ↦ rw h (omega (arith, work-update n threads i t (ground (arith, b, ==_iff i n))))
]

module _ {Lock : Type 0} (ops : Lockable Lock) (view : Lock → Option Bool)
    (laws : IsLock ops view) where
  put_back-work :
      (n i : ℕ) (s t : System Lock) (r : Option (Lock × Thread))
      → i < n
      → Moves ops view s.mutex (s.threads i) r
      → put_back ops i s.threads r ≡ some t
      → work n s.threads ≡ 1 + work n t.threads
  put_back-work n i s t none b mv e = ground arith
  put_back-work n i s t (some (m', t')) b mv e =
      let e' : update s.threads i t' ≡ t.threads = ground arith in
      rw (← e') (omega (arith, work-update n s.threads i t' b, mv.1))

  step-work :
      (n i : ℕ) (s t : System Lock) (o : Option ℕ)
      → i < n
      → Owns ops view s o
      → step ops i s ≡ some t
      → work n s.threads ≡ 1 + work n t.threads
  unfolding step
  step-work n i s t o b v e = put_back-work n i s t _ b (next-Moves ops view laws i s o v) e

  can_step :
      (i : ℕ) (s : System Lock) (r : Option (Lock × Thread))
      → Moves ops view s.mutex (s.threads i) r
      → is_gone (s.threads i) ≡ false
      → (view s.mutex ≡ some false) ⊎ (is_locked (s.threads i) ≡ true)
      → (t : System Lock) × (put_back ops i s.threads r ≡ some t)
  can_step i s (some (m', t')) mv stays h = (_, refl)
  can_step i s none (inr g) stays h = ground arith
  can_step i s none (inl (w, l)) stays (inl h) = ground arith
  can_step i s none (inl (w, l)) stays (inr h) = ground arith

  -- The owner is one of the first `n` threads.
  abbrev Within : ℕ → Option ℕ → Type 0
  Within n none = Unit
  Within n (some i) = i < n

  Within-step :
      (n i : ℕ) (o o' : Option ℕ) → i < n → Within n o → (OwnerStep i o o' ⊎ (o ≡ o')) → Within n o'
  Within-step n i _ _ b w (inl acquire) = b
  Within-step n i _ _ b w (inl release) = tt
  Within-step n i o o' b w (inr e) = subst (Within n) e w

  next_step :
      (n : ℕ) (s : System Lock) (o : Option ℕ)
      → Within n o
      → Owns ops view s o
      → (AllGone n s.threads × (view s.mutex ≡ some false))
        ⊎ ((i : ℕ) × (i < n) × (t : System Lock) × (step ops i s ≡ some t))
  unfolding step
  next_step n s none w v = elim (find_thread n s.threads) [
    | inl all ↦ inl (all, v.held)
    | inr (i, b, stays) ↦
        let (t, e) = can_step i s _ (next-Moves ops view laws i s none v) stays (inl v.held) in
        inr (i, b, t, e)
  ]
  next_step n s (some i) w v =
      let l = v.locked i ∙ ==_refl i in
      let (t, e) =
        can_step i s _ (next-Moves ops view laws i s (some i) v) (locked_stays (s.threads i) l)
          (inr l) in
      inr (i, w, t, e)

  -- What a run of `k` moves comes to.
  abbrev Ends : ℕ → ℕ → (ℕ → Thread) → System Lock → Type 0
  Ends n k threads t =
      (AllGone n t.threads × (view t.mutex ≡ some false) × (k ≡ work n threads))
      ⊎ ((i : ℕ) × (i < n) × (u : System Lock) × (step ops i t ≡ some u) × (k < work n threads))

  Run-Ends :
      (n k : ℕ) (s t : System Lock) (o : Option ℕ)
      → Within n o
      → Owns ops view s o
      → Run ops n k s t
      → Ends n k s.threads t
  Run-Ends n k s t o w v (done _) = elim (next_step n s o w v) [
    | inl (all, h) ↦ inl (all, h, sym (work-AllGone n s.threads all))
    | inr (i, b, u, e) ↦ inr (i, b, u, e, omega (arith, step-work n i s u o b v e))
  ]
  Run-Ends n k s t o w v (moves {t = s'} i b e rest) =
      let (o', l, v') = step-refines ops view laws i s s' o v e in
      let fewer = step-work n i s s' o b v e in
      elim (Run-Ends n _ s' t o' (Within-step n i o o' b w l) v' rest) [
        | inl (all, h, c) ↦ inl (all, h, omega (arith, fewer, c))
        | inr (j, b', u, e', c) ↦ inr (j, b', u, e', omega (arith, fewer, c))
      ]

  -- Whatever calls the first `n` threads make on their guards of a free lock, and in whatever order
  -- they move: after `k` moves, either every guard is destroyed, the lock is free, and `k` is the
  -- number of all constructors, calls and destructors; or `k` is less than that number, and some
  -- thread can move. So no run blocks, and none goes on for ever.
  pub Run-finishes :
      (n k : ℕ) (m : Lock) (calls : ℕ → List Call) (t : System Lock)
      → view m ≡ some false
      → Run ops n k (start m calls) t
      → (AllGone n t.threads × (view t.mutex ≡ some false) × (k ≡ work n (λ i. outside (calls i))))
        ⊎ ((i : ℕ) × (i < n)
            × (u : System Lock) × (step ops i t ≡ some u)
            × (k < work n (λ i. outside (calls i))))
  Run-finishes n k m calls t h r = Run-Ends n k _ t none tt (start-Owns ops view laws m calls h) r
