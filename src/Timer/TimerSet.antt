-- ===== src/Timer/TimerSet.antt =====
-- The manager's set of timers: what `find`, `erase` and `insert` do to a list in order.
use fxk.Base.{
  ℕ, suc, Bool, true, false, not, ◌&&◌, ◌||◌, none, some, List, [], ◌∷◌, ◌≡◌, refl, ◌⊎◌, inl, inr,
  arith, ◌==◌, All, Bool-cases, if◌then◌else◌,
}
use fxk.Timer.{Timer, less, find, erase_at, insert, update}
use fxk.Timer.Order.{less_irrefl, less_trans, less_total}

abbrev pub IsSorted : (ℕ → Timer) → List ℕ → Type 0
IsSorted s [] = Unit {0}
IsSorted s (x ∷ xs) = All (λ y. less s x y ≡ true) xs × IsSorted s xs

unfoldable pub member : ℕ → List ℕ → Bool
member a [] = false
member a (x ∷ xs) = a == x || member a xs

unfoldable pub remove : ℕ → List ℕ → List ℕ
remove a [] = []
remove a (x ∷ xs) = if x == a then xs else x ∷ remove a xs

module _ (s : ℕ → Timer) where
  All-less_trans :
      (x y : ℕ) (xs : List ℕ)
      → less s x y ≡ true
      → All (λ z. less s y z ≡ true) xs
      → All (λ z. less s x z ≡ true) xs
  All-less_trans x y [] h k = tt
  All-less_trans x y (z ∷ xs) h k = (less_trans s x y z h k.0, All-less_trans x y xs h k.1)

  not_member : (a : ℕ) (xs : List ℕ) → All (λ y. less s a y ≡ true) xs → member a xs ≡ false
  unfolding member
  not_member a [] h = refl
  not_member a (x ∷ xs) h = ground (arith, less_irrefl s a, not_member a xs h.1)

  not_member_after :
      (a x : ℕ) (xs : List ℕ)
      → less s a x ≡ true
      → All (λ y. less s x y ≡ true) xs
      → member a xs ≡ false
  not_member_after a x xs h k = not_member a xs (All-less_trans a x xs h k)

  abbrev pub Finds : ℕ → List ℕ → Type 0
  Finds a xs =
      ((find s a xs ≡ none) × (member a xs ≡ false))
      ⊎ ((i : ℕ) × (find s a xs ≡ some i) × (member a xs ≡ true) × (erase_at i xs ≡ remove a xs))

  find_later : (a x : ℕ) (xs : List ℕ) → less s x a ≡ true → Finds a xs → Finds a (x ∷ xs)
  unfolding find member remove erase_at
  find_later a x xs before (inl (p, q)) = inl (rw (before, p) refl, ground (arith, less_irrefl s a))
  find_later a x xs before (inr (i, p, q, e)) =
      inr (suc i, rw (before, p) refl, ground arith, ground (arith, less_irrefl s a))

  -- The iterator that `find` returns is at the timer, if the set holds it.
  pub find_sound : (a : ℕ) (xs : List ℕ) → IsSorted s xs → Finds a xs
  unfolding find member remove erase_at
  find_sound a [] h = inl (refl, refl)
  find_sound a (x ∷ xs) h = elim (Bool-cases (less s x a)) [
    | inl before ↦ find_later a x xs before (find_sound a xs h.1)
    | inr after ↦ elim (Bool-cases (less s a x)) [
      | inl gap ↦
          inl
            (rw (after, gap) refl, ground (arith, less_irrefl s a, not_member_after a x xs gap h.0))
      | inr same ↦ inr (
        0,
        rw (after, same) refl,
        ground (arith, less_total s a x),
        ground (arith, less_total s a x),
      )
    ]
  ]

  pub member-remove :
      (a b : ℕ) (xs : List ℕ)
      → IsSorted s xs
      → member b (remove a xs) ≡ (not (a == b) && member b xs)
  unfolding member remove
  member-remove a b [] h = ground arith
  member-remove a b (x ∷ xs) h = ground (arith, member-remove a b xs h.1, not_member x xs h.0)

  All-remove {κ} : (P : ℕ → Type κ) (a : ℕ) (xs : List ℕ) → All P xs → All P (remove a xs)
  unfolding remove
  All-remove P a [] h = tt
  All-remove P a (x ∷ xs) h = ground (arith, All-remove P a xs h.1)

  pub remove-IsSorted : (a : ℕ) (xs : List ℕ) → IsSorted s xs → IsSorted s (remove a xs)
  unfolding remove
  remove-IsSorted a [] h = tt
  remove-IsSorted a (x ∷ xs) h =
      ground (arith, remove-IsSorted a xs h.1, All-remove (λ y. less s x y ≡ true) a xs h.0)

  All-insert {κ} : (P : ℕ → Type κ) (a : ℕ) (xs : List ℕ) → P a → All P xs → All P (insert s a xs)
  unfolding insert
  All-insert P a [] p h = (p, tt)
  All-insert P a (x ∷ xs) p h = ground (arith, All-insert P a xs p h.1)

  pub insert-IsSorted : (a : ℕ) (xs : List ℕ) → IsSorted s xs → IsSorted s (insert s a xs)
  unfolding insert
  insert-IsSorted a [] h = (tt, tt)
  insert-IsSorted a (x ∷ xs) h = elim (Bool-cases (less s x a)) [
    | inl before ↦
        rw before (All-insert (λ y. less s x y ≡ true) a xs before h.0, insert-IsSorted a xs h.1)
    | inr after ↦ elim (Bool-cases (less s a x)) [
      | inl gap ↦ rw (after, gap) ((gap, All-less_trans a x xs gap h.0), h)
      | inr same ↦ rw (after, same) h
    ]
  ]

  pub member-insert : (a b : ℕ) (xs : List ℕ) → member b (insert s a xs) ≡ (a == b || member b xs)
  unfolding member insert
  member-insert a b [] = ground arith
  member-insert a b (x ∷ xs) = ground (arith, member-insert a b xs, less_total s a x)

-- A timer outside the set may change.
module _ (s : ℕ → Timer) (a : ℕ) (t : Timer) where
  less-update :
      (x y : ℕ) → (a == x) ≡ false → (a == y) ≡ false → less (update s a t) x y ≡ less s x y
  unfolding less
  less-update x y h k = rw (h, k)

  All-update :
      (x : ℕ) (xs : List ℕ)
      → (a == x) ≡ false
      → member a xs ≡ false
      → All (λ y. less s x y ≡ true) xs
      → All (λ y. less (update s a t) x y ≡ true) xs
  unfolding member
  All-update x [] e n h = tt
  All-update x (y ∷ ys) e n h =
      (ground (arith, less-update x y), All-update x ys e (ground arith) h.1)

  pub update-IsSorted :
      (xs : List ℕ) → member a xs ≡ false → IsSorted s xs → IsSorted (update s a t) xs
  unfolding member
  update-IsSorted [] n h = tt
  update-IsSorted (x ∷ xs) n h =
      (All-update x xs (ground arith) (ground arith) h.0, update-IsSorted xs (ground arith) h.1)
