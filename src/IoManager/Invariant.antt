-- ===== src/IoManager/Invariant.antt =====
-- What holds of an `IOManager` between its operations, and how one context's change keeps it.
use mathlib.Core.Option.{some-injective}
use fxk.Base.{
  length, ◌≤◌, ℕ, ◌+◌, ◌%◌, ◌^◌, true, false, Option, none, some, List, ◌≡◌, ◌≢◌, sym, ap, ◌∙◌, ◌⊎◌,
  inl, inr, arith, Bool-cases, ◌==◌, if◌then◌else◌, get_elem?, set,
}
use fxk.IoManager.Events.{Event, read, write, has, clear, add_flag, edge_triggered}
use fxk.IoManager.Contexts.{FdContext, Scheduled}
use fxk.IoManager.Flags.{IsFlags, IsIo, is_read, is_write, clear_lem, add_flag_lem}
use fxk.IoManager.Slots.{IsContext}
use fxk.IoManager.Table.{
  length-set, AreContexts, AreContexts-get, AreContexts-set, events_in, count_events,
  count_events-set, get_elem?-set, bit,
}
use fxk.IoManager.{CtlOp, Epoll, IoManager, interest_after, increment, decrement}

-- What epoll should watch a descriptor for.
abbrev pub wanted : ℕ → Option ℕ
wanted events = if events == 0 then none else some (edge_triggered events)

-- The pipe of `tickle` is in the same epoll instance: what is said of epoll is said of the others.
module _ (epoll : Epoll) (tickle_fd : ℕ) where
  open epoll use {Kernel, ctl, interest, interest-ctl}

  pub record IsConsistent (m : IoManager Kernel) : Type 0 where
    pub table : AreContexts 0 m.contexts
    pub room : 2 ≤ length m.contexts
    pub counted : m.pending ≡ count_events m.contexts % 2 ^ 64
    pub watched :
        (fd : ℕ) (c : FdContext)
        → fd ≢ tickle_fd
        → get_elem? m.contexts fd ≡ some c
        → interest m.kernel fd ≡ wanted c.events
    pub unwatched :
        (fd : ℕ) → fd ≢ tickle_fd → get_elem? m.contexts fd ≡ none → interest m.kernel fd ≡ none

  get_elem?-set-none :
      (fd g : ℕ) (l : List FdContext) (c c' : FdContext)
      → get_elem? l fd ≡ some c
      → get_elem? (set l fd c') g ≡ none
      → ((fd == g) ≡ false) × (get_elem? l g ≡ none)
  get_elem?-set-none fd g l c c' e h = ground (arith, get_elem?-set fd g l c c' e)

  -- One context changes, and epoll is told.
  pub change-IsConsistent :
      (m : IoManager Kernel) (fd flags p : ℕ) (c c' : FdContext) (op : CtlOp) (k : Kernel)
      (log : Scheduled)
      → IsConsistent m
      → get_elem? m.contexts fd ≡ some c
      → c'.fd ≡ c.fd
      → IsContext c'
      → ctl op fd flags m.kernel ≡ some k
      → interest_after op flags ≡ wanted c'.events
      → p ≡ count_events (set m.contexts fd c') % 2 ^ 64
      → IsConsistent
          (record m { contexts = set m.contexts fd c'; pending = p; kernel = k; scheduled = log })
  change-IsConsistent m fd flags p c c' op k log v e same good told after n = record {
    table =
        AreContexts-set 0 fd m.contexts c' v.table
          (omega (arith, (AreContexts-get 0 fd m.contexts c v.table e).0)) good;
    room = rw length-set v.room;
    counted = n;
    watched = λ g x away h.
        rw (interest-ctl op fd flags m.kernel k told g)
          (watch g x away (Bool-cases (fd == g)) (sym (get_elem?-set fd g m.contexts c c' e) ∙ h));
    unwatched = λ g away h.
        let (ne, gone) = get_elem?-set-none fd g m.contexts c c' e h in
        rw (interest-ctl op fd flags m.kernel k told g) (rw ne (v.unwatched g away gone));
  }
    where
      watch :
          (g : ℕ) (x : FdContext)
          → g ≢ tickle_fd
          → ((fd == g) ≡ true) ⊎ ((fd == g) ≡ false)
          → (if fd == g then some c' else get_elem? m.contexts g) ≡ some x
          → (if fd == g then interest_after op flags else interest m.kernel g) ≡ wanted x.events
      watch g x away (inl t) h =
          rw t (after ∙ ap (λ (y : FdContext). wanted y.events) (some-injective _ _ (rw t at h)))
      watch g x away (inr f) h = rw f (v.watched g x away (rw f at h))

  -- The counter after one event more or less.
  pub increment-count :
      (m : IoManager Kernel) (fd : ℕ) (c c' : FdContext)
      → IsConsistent m
      → get_elem? m.contexts fd ≡ some c
      → events_in c' ≡ events_in c + 1
      → increment m.pending ≡ count_events (set m.contexts fd c') % 2 ^ 64
  increment-count m fd c c' v e h = omega (arith, v.counted, count_events-set fd m.contexts c c' e)

  pub decrement-count :
      (n fd : ℕ) (l : List FdContext) (c c' : FdContext)
      → n ≡ count_events l % 2 ^ 64
      → get_elem? l fd ≡ some c
      → events_in c ≡ events_in c' + 1
      → decrement n ≡ count_events (set l fd c') % 2 ^ 64
  decrement-count n fd l c c' v e h = omega (arith, count_events-set fd l c c' e)

abbrev pub bits : ℕ → ℕ
bits events = bit (has read events) + bit (has write events)

pub bits-add_flag :
    (e : Event) (events : ℕ)
    → IsIo e
    → IsFlags events
    → has e events ≡ false
    → bits (add_flag e events) ≡ bits events + 1
bits-add_flag e events is_read f h =
    let (_, on, rest, _) = add_flag_lem events read is_read f in rw (on, rest, h) (omega arith)
bits-add_flag e events is_write f h =
    let (_, on, rest, _) = add_flag_lem events write is_write f in rw (on, rest, h) (omega arith)

pub bits-clear :
    (e : Event) (events : ℕ)
    → IsIo e
    → IsFlags events
    → has e events ≡ true
    → bits events ≡ bits (clear e events) + 1
bits-clear e events is_read f h =
    let (_, off, rest) = clear_lem events read is_read f in rw (off, rest, h) (omega arith)
bits-clear e events is_write f h =
    let (_, off, rest) = clear_lem events write is_write f in rw (off, rest, h) (omega arith)
