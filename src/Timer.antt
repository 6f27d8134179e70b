-- ===== src/Timer.antt =====
-- timer.h and timer.cpp: timers, their order, and the set that the manager keeps them in. A timer
-- is known by its address; the store maps addresses to timers. The clock is an argument, `now`.
-- `std::set` is a list in its order.
pub mod Order
pub mod TimerSet
pub mod Cancel
pub mod Reset
use fxk.Base.{
  ℕ, zero, suc, ◌+◌, ◌-◌, ◌%◌, ◌^◌, Bool, true, false, not, ◌&&◌, Option, none, some, List, [], ◌∷◌,
  ltb, ◌==◌, if◌then◌else◌, Result, ok, err, null_pointer, bad_iterator, from_option, ◌>>=◌,
}

pub record Timer : Type 0 where
  pub recurring : Bool
  pub ms : ℕ
  pub next : ℕ
  pub cb : Option ℕ

pub record TimerManager : Type 0 where
  pub store : ℕ → Timer
  pub timers : List ℕ

-- uint64_t arithmetic.
abbrev pub wrap : ℕ → ℕ
wrap n = n % 2 ^ 64

abbrev pub wrap_sub : ℕ → ℕ → ℕ
wrap_sub a b = (a + 2 ^ 64 - b) % 2 ^ 64

-- `Comparator::operator()` behind its null tests.
unfoldable pub less : (ℕ → Timer) → ℕ → ℕ → Bool
less s a b =
    if ltb (s a).next (s b).next then true else if ltb (s b).next (s a).next then false else ltb a b

-- The third null test repeats the second, so a null left side is followed.
unfoldable pub compare_ptr : (ℕ → Timer) → Option ℕ → Option ℕ → Result Bool
compare_ptr s none none = ok false
compare_ptr s (some a) none = ok false
compare_ptr s none (some b) = err null_pointer
compare_ptr s (some a) (some b) = ok (less s a b)

-- `std::set::find`, `erase` and `insert`: a position is an iterator, `none` is `end()`.
unfoldable pub find : (ℕ → Timer) → ℕ → List ℕ → Option ℕ
find s k [] = none
find s k (x ∷ xs) =
    let later = find s k xs in
    if less s x k
    then elim later [ none ↦ none | some i ↦ some (suc i) ]
    else if less s k x
    then none
    else some 0

unfoldable pub erase_at : ℕ → List ℕ → List ℕ
erase_at i [] = []
erase_at zero (x ∷ xs) = xs
erase_at (suc i) (x ∷ xs) = x ∷ erase_at i xs

unfoldable pub insert : (ℕ → Timer) → ℕ → List ℕ → List ℕ
insert s k [] = k ∷ []
insert s k (x ∷ xs) =
    if less s x k then x ∷ insert s k xs else if less s k x then k ∷ x ∷ xs else x ∷ xs

abbrev pub update : (ℕ → Timer) → ℕ → Timer → ℕ → Timer
update s a t b = if a == b then t else s b

-- `erase` of `end()` is undefined.
unfoldable pub erase_found : Option ℕ → List ℕ → Result (List ℕ)
erase_found none xs = err bad_iterator
erase_found (some i) xs = ok (erase_at i xs)

abbrev pub new_timer : ℕ → ℕ → Option ℕ → Bool → Timer
new_timer now ms cb recurring = record {
  recurring = recurring;
  ms = ms;
  next = wrap (now + ms);
  cb = cb;
}

-- The other constructor takes the time alone.
abbrev pub time_timer : ℕ → Timer
time_timer next = record { recurring = false; ms = 0; next = next; cb = none }

unfoldable pub cancel : ℕ → TimerManager → Result (Bool × TimerManager)
unfolding erase_found
cancel a m = elim (m.store a).cb [
  | none ↦ ok (false, m)
  | some c ↦ do
    let store = update m.store a (record (m.store a) { cb = none })
    timers ← erase_found (find store a m.timers) m.timers
    ok (true, record { store = store; timers = timers })
]

unfoldable pub refresh : ℕ → ℕ → TimerManager → Bool × TimerManager
refresh now a m = elim (m.store a).cb [
  | none ↦ (false, m)
  | some c ↦ elim (find m.store a m.timers) [
    | none ↦ (false, m)
    | some i ↦
        let t = m.store a in
        let store = update m.store a (record t { next = wrap (now + t.ms) }) in
        (true, record { store = store; timers = insert store a (erase_at i m.timers) })
  ]
]

-- `addTimer(Timer::ptr, WriteLock&)` is declared and nowhere defined: it is the argument `link`.
module _ (link : ℕ → TimerManager → TimerManager) where
  pub add_timer : ℕ → ℕ → ℕ → Option ℕ → Bool → TimerManager → TimerManager
  add_timer now a ms cb recurring m =
      link a (record m { store = update m.store a (new_timer now ms cb recurring) })

  -- Its first test assigns: `ms` becomes `m_ms && !from_now`, as a number.
  assigned_ms : Bool → ℕ → ℕ
  assigned_ms from_now m_ms = if not (m_ms == 0) && not from_now then 1 else 0

  pub reset : ℕ → ℕ → ℕ → Bool → TimerManager → Bool × TimerManager
  unfolding assigned_ms
  reset now a ms from_now m =
      let t = m.store a in
      let ms' = assigned_ms from_now t.ms in
      if not (ms' == 0) then (true, m) else elim t.cb [
        | none ↦ (false, m)
        | some c ↦ elim (find m.store a m.timers) [
          | none ↦ (false, m)
          | some i ↦
              let start = if from_now then now else wrap_sub t.next t.ms in
              let t' = record t { ms = ms'; next = wrap (start + ms') } in
              (true, link a (record { store = update m.store a t'; timers = erase_at i m.timers }))
        ]
      ]

-- `OnTimer`: the callbacks that it runs, given the result of `weak_cond.lock()`.
pub on_timer : Option ℕ → ℕ → List ℕ
on_timer none cb = []
on_timer (some tmp) cb = cb ∷ []
