-- ===== src/Thread/Handshake.antt =====
-- thread.cpp: what the constructor of `Thread` and the new thread's `run` come to.
use fxk.Base.{
  ℕ, ◌+◌, ◌<◌, Bool, true, false, none, some, Bytes, if◌then◌else◌, ok, ==_refl, ◌≡◌, refl, ap, ◌⊎◌,
  inl, inr, arith,
}
use fxk.Thread.{
  World, is_empty, unknown, new_thread, create, RunPc, sets_this, sets_name, sets_id,
  sets_kernel_name, swaps, notifies, calls, run_step,
}
use fxk.Thread.Creating.{
  Creation, Moves, CanMove, IsStarted, Inv, moved, bit, Counted, wait_step_one, Moves-Counted,
}

module _ (a tid cb : ℕ) (name : Bytes) where
  -- The creation is over: both the constructor and `run` have done what is theirs.
  pub record IsCreated (c : Creation) : Type 0 where
    pub returned : c.returned ≡ true
    pub calls_cb : c.pc ≡ calls (some cb)
    pub taken : (c.world.threads a).cb ≡ none
    pub named : (c.world.threads a).name ≡ name
    pub started :
        IsStarted a tid cb name (c.world.threads a) (c.world.locals tid) (c.world.kernel_names tid)

  abbrev Ends : ℕ → Creation → Type 0
  Ends k c = ((k ≡ 7) × IsCreated c) ⊎ ((k < 7) × (c.returned ≡ false) × CanMove a tid c)

  Inv-Ends :
      (pc : RunPc) (returned : Bool) (w : World) (k : ℕ)
      → Inv a tid cb name pc returned w
      → moved a tid cb name pc + bit a tid cb name returned ≡ k
      → Ends k (record { pc = pc; returned = returned; world = w })
  unfolding run_step
  Inv-Ends sets_this false w k v e = inr (omega (arith, e), refl, inl (_, _, refl))
  Inv-Ends sets_name false w k v e = inr (omega (arith, e), refl, inl (_, _, refl))
  Inv-Ends sets_id false w k v e = inr (omega (arith, e), refl, inl (_, _, refl))
  Inv-Ends sets_kernel_name false w k v e = inr (omega (arith, e), refl, inl (_, _, refl))
  Inv-Ends swaps false w k v e = inr (omega (arith, e), refl, inl (_, _, refl))
  Inv-Ends (notifies c) false w k v e = inr (omega (arith, e), refl, inl (_, _, refl))
  Inv-Ends (calls c) false w k v e =
      inr (omega (arith, e), refl, inr (_, wait_step_one a tid cb name w v.notified))
  Inv-Ends (calls c) true w k v e = inl (
    omega (arith, e),
    record {
      returned = refl;
      calls_cb = ap calls v.before.0;
      taken = v.before.1;
      named = v.named;
      started = v.before.2;
    },
  )
  Inv-Ends sets_this true w k v e = elim v.notified [ ]
  Inv-Ends sets_name true w k v e = elim v.notified [ ]
  Inv-Ends sets_id true w k v e = elim v.notified [ ]
  Inv-Ends sets_kernel_name true w k v e = elim v.notified [ ]
  Inv-Ends swaps true w k v e = elim v.notified [ ]
  Inv-Ends (notifies c) true w k v e = elim v.notified [ ]

-- Behind the constructor's `pthread_create`.
abbrev pub begin : World → Creation
begin w = record { pc = sets_this; returned = false; world = w }

-- The name that the constructor gives.
abbrev pub given : Bytes → Bytes
given name = if is_empty name then unknown else name

create-begins :
    (a tid cb : ℕ) (name : Bytes) (w w' : World)
    → create a cb name (some tid) w ≡ ok w'
    → w'.threads a ≡ record (new_thread cb name) { thread = some tid }
unfolding create
create-begins a tid cb name w w' made = ground (arith, ==_refl a)

-- Where `pthread_create` has made a thread, the constructor and the new thread's `run` make seven
-- moves between them, in whatever order, with other threads at work elsewhere. Before the seventh
-- the constructor has not returned, and one of the two can go on. Behind it the constructor has
-- returned, the new thread is about to call the callback, which the object no longer holds, and
-- the object has the thread's id and its name, or `UNKNOW` for an empty one, as has the thread.
pub create-IsCreated :
    (a tid cb k : ℕ) (name : Bytes) (w w' : World) (c : Creation)
    → create a cb name (some tid) w ≡ ok w'
    → Moves a tid k (begin w') c
    → ((k ≡ 7) × IsCreated a tid cb (given name) c)
      ⊎ ((k < 7) × (c.returned ≡ false) × CanMove a tid c)
create-IsCreated a tid cb k name w w' c made m =
    let v : Counted a tid cb (given name) 0 (begin w') = (
      rw (create-begins a tid cb name w w' made)
          (record { before = refl; notified = refl; named = refl }),
      refl,
    ) in
    let (v', e) = Moves-Counted a tid cb (given name) k 0 (begin w') c m v in
    Inv-Ends a tid cb (given name) c.pc c.returned c.world k v' (omega (arith, e))
