-- ===== src/Fiber/Lives.antt =====
-- fiber.cpp: which fibers there are, their ids, and the count of them.
use fxk.Base.{
  ℕ, suc, ◌%◌, ◌^◌, ◌≤◌, ◌<◌, Bool, true, false, ◌||◌, Option, List, [], ◌∷◌, length, ◌==◌, ==_iff,
  update, ok, ◌≡◌, refl, ◌⊎◌, sym, ap, ◌∙◌, inl, inr, arith, Bool-cases,
}
use fxk.Fiber.State.{init}
use fxk.Fiber.{Fiber, World, increment, decrement, main_func, put, remove, destroy, reset}

abbrev pub member : ℕ → List ℕ → Bool
member a [] = false
member a (b ∷ l) = b == a || member a l

-- The ids of the fibers with a stack of their own are positive and differ from each other.
pub record IsConsistent (w : World) : Type 0 where
  pub counted : w.count ≡ length w.live % 2 ^ 64
  pub below : w.last_id < 2 ^ 64
  pub positive :
      (a : ℕ) → member a w.live ≡ true → (w.fibers a).has_stack ≡ true → 0 < (w.fibers a).id
  pub bounded :
      (a : ℕ) → member a w.live ≡ true → (w.fibers a).has_stack ≡ true → (w.fibers a).id ≤ w.last_id
  pub distinct :
      (a b : ℕ)
      → member a w.live ≡ true
      → member b w.live ≡ true
      → (w.fibers a).has_stack ≡ true
      → (w.fibers b).has_stack ≡ true
      → (w.fibers a).id ≡ (w.fibers b).id
      → a ≡ b

length-remove : (a : ℕ) (l : List ℕ) → member a l ≡ true → suc (length (remove a l)) ≡ length l
length-remove a [] h = ground arith
length-remove a (b ∷ l) h = ground (arith, length-remove a l)

member-remove : (a b : ℕ) (l : List ℕ) → member b (remove a l) ≡ true → member b l ≡ true
member-remove a b [] h = h
member-remove a b (c ∷ l) h = ground (arith, member-remove a b l)

-- The same fibers live, with the ids and stacks that they had.
pub record Keeps (w w' : World) : Type 0 where
  pub same_count : w'.count ≡ w.count
  pub same_last : w'.last_id ≡ w.last_id
  pub same_live : w'.live ≡ w.live
  pub same_id : (a : ℕ) → (w'.fibers a).id ≡ (w.fibers a).id
  pub same_stack : (a : ℕ) → (w'.fibers a).has_stack ≡ (w.fibers a).has_stack

pub Keeps-IsConsistent : (w w' : World) → Keeps w w' → IsConsistent w → IsConsistent w'
Keeps-IsConsistent w w' k v = record {
  counted = k.same_count ∙ v.counted ∙ ap (λ (l : List ℕ). length l % 2 ^ 64) (sym k.same_live);
  below = rw k.same_last v.below;
  positive =
      λ a m s. rw (k.same_id a) (v.positive a (rw k.same_live at m) (sym (k.same_stack a) ∙ s));
  bounded = λ a m s.
      rw (k.same_id a, k.same_last) (v.bounded a (rw k.same_live at m) (sym (k.same_stack a) ∙ s));
  distinct = λ a b m n s t e.
      v.distinct a b (rw k.same_live at m) (rw k.same_live at n) (sym (k.same_stack a) ∙ s)
        (sym (k.same_stack b) ∙ t) (sym (k.same_id a) ∙ e ∙ k.same_id b);
}

pub reset-put :
    (a : ℕ) (cb : Option ℕ) (saved : Bool) (w w' : World)
    → reset a cb saved w ≡ ok w'
    → w' ≡ put a (record (w.fibers a) { cb = cb; entry = main_func; state = init }) w
unfolding reset
reset-put a cb saved w w' e = ground arith

pub put-Keeps :
    (a : ℕ) (f : Fiber) (w : World)
    → f.id ≡ (w.fibers a).id
    → f.has_stack ≡ (w.fibers a).has_stack
    → Keeps w (put a f w)
put-Keeps a f w e s = record {
  same_count = refl;
  same_last = refl;
  same_live = refl;
  same_id = λ b. ground (arith, ==_iff a b, e);
  same_stack = λ b. ground (arith, ==_iff a b, s);
}

-- What the destructor of a fiber that may be destroyed does.
abbrev Destroyed : ℕ → World → World → Type 0
Destroyed a w w' =
    (w'.fibers ≡ w.fibers)
    × (w'.count ≡ decrement w.count)
    × (w'.live ≡ remove a w.live)
    × (w'.last_id ≡ w.last_id)

destroy-Destroyed : (a : ℕ) (w w' : World) → destroy a w ≡ ok w' → Destroyed a w w'
unfolding destroy
destroy-Destroyed a w w' e = ground arith

pub destroy-IsConsistent :
    (a : ℕ) (w w' : World)
    → member a w.live ≡ true
    → destroy a w ≡ ok w'
    → IsConsistent w
    → IsConsistent w'
destroy-IsConsistent a w w' m e v =
    let (f, c, l, i) = destroy-Destroyed a w w' e in
    let old = λ (b : ℕ) (n : member b w'.live ≡ true). member-remove a b w.live (rw l at n) in
    record {
      counted = rw (c, l) (omega (arith, v.counted, length-remove a w.live m));
      below = rw i v.below;
      positive = λ b n s. rw f (v.positive b (old b n) (rw f at s));
      bounded = λ b n s. rw (f, i) (v.bounded b (old b n) (rw f at s));
      distinct =
          λ b d n k s t q. v.distinct b d (old b n) (old d k) (rw f at s) (rw f at t) (rw f at q);
    }

-- What a constructor makes of `a`: one more fiber, with the id `n`.
abbrev pub Made : ℕ → Fiber → ℕ → World → World → Type 0
Made a f n w w' =
    (w'.fibers ≡ update w.fibers a f)
    × (w'.count ≡ increment w.count)
    × (w'.live ≡ a ∷ w.live)
    × (w'.last_id ≡ n)

-- A fiber of the thread has no stack of its own; another has the next id.
abbrev pub HasId : Fiber → ℕ → World → Type 0
HasId f n w =
    ((f.has_stack ≡ false) × (n ≡ w.last_id))
    ⊎ ((f.has_stack ≡ true) × (f.id ≡ n) × (n ≡ suc w.last_id))

-- A fiber with a stack, behind the constructor: it is the new one, or it was there.
abbrev Sorts : ℕ → Fiber → ℕ → World → ℕ → Type 0
Sorts a f n w b =
    ((a ≡ b) × (n ≡ suc w.last_id) × ((update w.fibers a f b).id ≡ suc w.last_id))
    ⊎ ((member b w.live ≡ true)
        × ((w.fibers b).has_stack ≡ true)
        × ((update w.fibers a f b).id ≡ (w.fibers b).id))

sort_fiber :
    (a : ℕ) (f : Fiber) (n : ℕ) (w : World) (b : ℕ)
    → HasId f n w
    → member b (a ∷ w.live) ≡ true
    → (update w.fibers a f b).has_stack ≡ true
    → Sorts a f n w b
sort_fiber a f n w b h m s = elim (Bool-cases (a == b)) [
  | inr e ↦ inr (rw e at m, rw e at s, rw e refl)
  | inl e ↦ elim h [
    | inl (no_stack, same) ↦ ground arith
    | inr (own, i, q) ↦ inl ((==_iff a b).0 e, q, rw e (i ∙ q))
  ]
]

pub Made-IsConsistent :
    (a : ℕ) (f : Fiber) (n : ℕ) (w w' : World)
    → Made a f n w w'
    → HasId f n w
    → n < 2 ^ 64
    → IsConsistent w
    → IsConsistent w'
Made-IsConsistent a f n w w' (g, c, l, i) h b v = record {
  counted = rw (c, l) (omega (arith, v.counted));
  below = rw i b;
  positive = λ x m s. elim (sort_fiber a f n w x h (rw l at m) (rw g at s)) [
    | inl (new, q, j) ↦ rw g (omega (arith, j))
    | inr (m', s', j) ↦ rw (g, j) (v.positive x m' s')
  ];
  bounded = λ x m s. elim (sort_fiber a f n w x h (rw l at m) (rw g at s)) [
    | inl (new, q, j) ↦ rw g (omega (arith, j, q, i))
    | inr (m', s', j) ↦ rw g (omega (arith, j, last_grows h, v.bounded x m' s', i))
  ];
  distinct = λ x y m m' s t q.
      distinct_made x y (sort_fiber a f n w x h (rw l at m) (rw g at s))
        (sort_fiber a f n w y h (rw l at m') (rw g at t)) (rw g at q);
}
  where
    last_grows : HasId f n w → w.last_id ≤ n
    last_grows (inl (no_stack, same)) = omega (arith, same)
    last_grows (inr (own, j, q)) = omega (arith, q)

    distinct_made :
        (x y : ℕ)
        → Sorts a f n w x
        → Sorts a f n w y
        → (update w.fibers a f x).id ≡ (update w.fibers a f y).id
        → x ≡ y
    distinct_made x y (inl (new, _, j)) (inl (new', _, k)) q = sym new ∙ new'
    distinct_made x y (inl (new, _, j)) (inr (m, s, k)) q =
        absurd (omega (arith, v.bounded y m s, j, k, q))
    distinct_made x y (inr (m, s, j)) (inl (new, _, k)) q =
        absurd (omega (arith, v.bounded x m s, j, k, q))
    distinct_made x y (inr (m, s, j)) (inr (m', s', k)) q = v.distinct x y m m' s s' (sym j ∙ q ∙ k)
