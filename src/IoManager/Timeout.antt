-- ===== src/IoManager/Timeout.antt =====
-- How long `idle` waits in `epoll_wait`, and when it stops.
use fxk.Base.{
  ℕ, ◌-◌, ◌%◌, ◌^◌, ◌≤◌, ◌<◌, Bool, not, ◌&&◌, ◌≡◌, ◌≢◌, refl, ◌⊎◌, inl, inr, arith, ltb, leb, ◌==◌,
  if◌then◌else◌, Bool-cases,
}

-- The last argument of `epoll_wait`: a negative one waits for an event however long it takes.
pub data Wait : Type 0 where
  forever : Wait
  at_most : ℕ → Wait

-- The time of no timer, `~0ull`.
abbrev pub no_timeout : ℕ
no_timeout = 2 ^ 64 - 1

abbrev pub max_timeout : ℕ
max_timeout = 3000

-- `(int)n`: is it negative, and its value where it is not.
abbrev pub is_negative_int : ℕ → Bool
is_negative_int n = leb (2 ^ 31) (n % 2 ^ 32)

abbrev pub to_int : ℕ → ℕ
to_int n = n % 2 ^ 32

capped_timeout : ℕ → ℕ
capped_timeout next_timeout =
    if next_timeout == no_timeout
    then max_timeout
    else (if not (is_negative_int next_timeout) && ltb max_timeout (to_int next_timeout)
        then max_timeout
        else next_timeout)

pub idle_wait : ℕ → Wait
unfolding capped_timeout
idle_wait next_timeout =
    let t = capped_timeout next_timeout in if is_negative_int t then forever else at_most (to_int t)

-- `stopping(timeout)`, from the next timer, the pending events and `Scheduler::stopping`.
abbrev pub stops : ℕ → ℕ → Bool → Bool
stops timeout pending scheduler_stopping =
    timeout == no_timeout && pending == 0 && scheduler_stopping

-- `idle` waits three seconds if there is no timer. If there is one and the low 32 bits of its time
-- are 2 ^ 31 or more, the number that `epoll_wait` gets is negative, and nothing bounds the wait.
-- In all other cases, and only in these, it waits as long as those 32 bits say, or three seconds
-- where they say more, and never longer than up to the timer.
pub idle_wait_lem :
    (next_timeout : ℕ)
    → next_timeout < 2 ^ 64
    → ((next_timeout ≡ no_timeout) × (idle_wait next_timeout ≡ at_most 3000))
      ⊎ ((next_timeout ≢ no_timeout)
          × (2 ^ 31 ≤ next_timeout % 2 ^ 32)
          × (idle_wait next_timeout ≡ forever))
      ⊎ ((next_timeout ≢ no_timeout)
          × (next_timeout % 2 ^ 32 < 2 ^ 31)
          × ((t : ℕ) × (idle_wait next_timeout ≡ at_most t)
              × (t ≤ next_timeout)
              × (((t ≡ 3000) × (3000 < next_timeout % 2 ^ 32))
                  ⊎ ((t ≡ next_timeout % 2 ^ 32) × (t ≤ 3000)))))
unfolding idle_wait capped_timeout
idle_wait_lem n small = elim (Bool-cases (n == no_timeout)) [
  | inl never ↦ inl (ground arith, rw never refl)
  | inr ends ↦ inr (elim (Bool-cases (is_negative_int n)) [
    | inl neg ↦ inl (ground arith, ground arith, rw ends (rw neg (rw neg refl)))
    | inr pos ↦ inr (
      ground arith,
      ground arith,
      elim (Bool-cases (ltb max_timeout (to_int n))) [
        | inl long ↦ (3000, rw ends (rw pos (rw long refl)), ground arith, inl (refl, ground arith))
        | inr short ↦ (
          to_int n,
          rw ends (rw pos (rw short (rw pos refl))),
          ground arith,
          inr (refl, ground arith),
        )
      ],
    )
  ])
]
