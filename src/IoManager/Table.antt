-- ===== src/IoManager/Table.antt =====
-- The table of contexts: growth, writes, and the number of events registered in it.
use mathlib.Core.List.{append-nil}
use mathlib.Core.Option.{some-injective}
use mathlib.Core.Path.{subst}
use fxk.Base.{
  ℕ, zero, suc, ◌+◌, ◌-◌, ◌*◌, ◌/◌, ◌≤◌, ◌<◌, Bool, true, false, none, some, List, [], ◌∷◌, ◌++◌,
  ◌≡◌, refl, sym, ap, ◌∙◌, ◌⊎◌, inl, inr, arith, Bool-cases, ltb, ◌==◌, if◌then◌else◌, length,
  length-append, get_elem?, set, take,
}
use fxk.IoManager.Events.{read, write, has}
use fxk.IoManager.Contexts.{FdContext}
use fxk.IoManager.Slots.{IsContext, new_context-IsContext}
use fxk.IoManager.{new_contexts, context_resize, table_for}

-- Each context is in order and has its place as its number, which starts at `i`.
abbrev pub AreContexts : ℕ → List FdContext → Type 0
AreContexts i [] = Unit {0}
AreContexts i (c ∷ cs) = (c.fd ≡ i) × IsContext c × AreContexts (suc i) cs

abbrev pub bit : Bool → ℕ
bit true = 1
bit false = 0

abbrev pub events_in : FdContext → ℕ
events_in c = bit (has read c.events) + bit (has write c.events)

abbrev pub count_events : List FdContext → ℕ
count_events [] = 0
count_events (c ∷ cs) = events_in c + count_events cs

pub length-new_contexts : (i n : ℕ) → length (new_contexts i n) ≡ n
unfolding new_contexts
length-new_contexts i zero = refl
length-new_contexts i (suc n) = ap suc (length-new_contexts (suc i) n)

pub take_all : (n : ℕ) (l : List FdContext) → length l ≤ n → take n l ≡ l
take_all zero [] h = refl
take_all zero (c ∷ cs) h = absurd (omega arith)
take_all (suc n) [] h = refl
take_all (suc n) (c ∷ cs) h = ap (◌∷◌ c) (take_all n cs (omega arith))

pub AreContexts-new : (i n : ℕ) → AreContexts i (new_contexts i n)
unfolding new_contexts
AreContexts-new i zero = tt
AreContexts-new i (suc n) = (refl, new_context-IsContext i, AreContexts-new (suc i) n)

AreContexts-append :
    (i j : ℕ) (l : List FdContext) (n : ℕ)
    → j ≡ i + length l
    → AreContexts i l
    → AreContexts i (l ++ new_contexts j n)
AreContexts-append i j [] n e v = let same : j ≡ i = omega arith in rw same (AreContexts-new i n)
AreContexts-append i j (c ∷ cs) n e v =
    (v.0, v.1, AreContexts-append (suc i) j cs n (omega arith) v.2)

pub new_contexts_events : (i n : ℕ) → count_events (new_contexts i n) ≡ 0
unfolding new_contexts has
new_contexts_events i zero = refl
new_contexts_events i (suc n) = omega (arith, new_contexts_events (suc i) n)

count_events-append :
    (xs ys : List FdContext) → count_events (xs ++ ys) ≡ count_events xs + count_events ys
count_events-append [] ys = omega arith
count_events-append (x ∷ xs) ys = omega (arith, count_events-append xs ys)

-- A context of the table is in order.
pub AreContexts-get :
    (i fd : ℕ) (l : List FdContext) (c : FdContext)
    → AreContexts i l
    → get_elem? l fd ≡ some c
    → (c.fd ≡ i + fd) × IsContext c
AreContexts-get i fd [] c v e = cc
AreContexts-get i zero (x ∷ xs) c v e =
    subst (λ y. (y.fd ≡ i + 0) × IsContext y) (some-injective _ _ e) (omega arith, v.1)
AreContexts-get i (suc fd) (x ∷ xs) c v e =
    let (p, q) = AreContexts-get (suc i) fd xs c v.2 e in (omega arith, q)

pub AreContexts-set :
    (i fd : ℕ) (l : List FdContext) (c : FdContext)
    → AreContexts i l
    → c.fd ≡ i + fd
    → IsContext c
    → AreContexts i (set l fd c)
AreContexts-set i fd [] c v p q = tt
AreContexts-set i zero (x ∷ xs) c v p q = (omega arith, q, v.2)
AreContexts-set i (suc fd) (x ∷ xs) c v p q =
    (v.0, v.1, AreContexts-set (suc i) fd xs c v.2 (omega arith) q)

pub count_events-set :
    (fd : ℕ) (l : List FdContext) (c c' : FdContext)
    → get_elem? l fd ≡ some c
    → count_events (set l fd c') + events_in c ≡ count_events l + events_in c'
count_events-set fd [] c c' e = cc
count_events-set zero (x ∷ xs) c c' e = omega (arith, ap (λ y. events_in y) (some-injective _ _ e))
count_events-set (suc fd) (x ∷ xs) c c' e = omega (arith, count_events-set fd xs c c' e)

pub get_elem?-set :
    (fd g : ℕ) (l : List FdContext) (c c' : FdContext)
    → get_elem? l fd ≡ some c
    → get_elem? (set l fd c') g ≡ (if fd == g then some c' else get_elem? l g)
get_elem?-set fd g [] c c' e = cc
get_elem?-set zero zero (x ∷ xs) c c' e = refl
get_elem?-set zero (suc g) (x ∷ xs) c c' e = ground arith
get_elem?-set (suc fd) zero (x ∷ xs) c c' e = ground arith
get_elem?-set (suc fd) (suc g) (x ∷ xs) c c' e = get_elem?-set fd g xs c c' e ∙ ground arith

-- How many contexts `addEvent` makes.
abbrev added : ℕ → List FdContext → ℕ
added fd l = if ltb fd (length l) then 0 else fd * 3 / 2 - length l

table_for_lem :
    (fd : ℕ) (l : List FdContext) → table_for fd l ≡ l ++ new_contexts (length l) (added fd l)
unfolding table_for context_resize new_contexts
table_for_lem fd l = elim (Bool-cases (ltb fd (length l))) [
  | inl e ↦ rw e (sym (append-nil l))
  | inr e ↦ rw e (rw (take_all (fd * 3 / 2) l (ground arith)))
]

pub table_for-AreContexts :
    (fd : ℕ) (l : List FdContext) → AreContexts 0 l → AreContexts 0 (table_for fd l)
table_for-AreContexts fd l v =
    rw table_for_lem (AreContexts-append 0 (length l) l (added fd l) (omega arith) v)

pub count_events-table_for :
    (fd : ℕ) (l : List FdContext) → count_events (table_for fd l) ≡ count_events l
count_events-table_for fd l = rw table_for_lem (
    omega (
      arith,
      count_events-append l (new_contexts (length l) (added fd l)),
      new_contexts_events (length l) (added fd l),
    ))

-- The table has a place for the descriptor, if it had two places before.
pub table_for-length :
    (fd : ℕ) (l : List FdContext)
    → 2 ≤ length l
    → (fd < length (table_for fd l)) × (length l ≤ length (table_for fd l))
table_for-length fd l h = rw table_for_lem (
    ground (
      arith,
      length-append l (new_contexts (length l) (added fd l)),
      length-new_contexts (length l) (added fd l),
    ))

get_elem?-append :
    (l rest : List FdContext) (g : ℕ) (c : FdContext)
    → get_elem? l g ≡ some c
    → get_elem? (l ++ rest) g ≡ some c
get_elem?-append [] rest g c e = cc
get_elem?-append (x ∷ xs) rest zero c e = e
get_elem?-append (x ∷ xs) rest (suc g) c e = get_elem?-append xs rest g c e

pub get_elem?-table_for :
    (fd g : ℕ) (l : List FdContext) (c : FdContext)
    → get_elem? l g ≡ some c
    → get_elem? (table_for fd l) g ≡ some c
get_elem?-table_for fd g l c e =
    rw table_for_lem (get_elem?-append l (new_contexts (length l) (added fd l)) g c e)

get_elem?-new : (i n g : ℕ) (c : FdContext) → get_elem? (new_contexts i n) g ≡ some c → c.events ≡ 0
unfolding new_contexts
get_elem?-new i zero g c e = cc
get_elem?-new i (suc n) zero c e = ap (λ (y : FdContext). y.events) (sym (some-injective _ _ e))
get_elem?-new i (suc n) (suc g) c e = get_elem?-new (suc i) n g c e

get_elem?-append_new :
    (l : List FdContext) (i n g : ℕ) (c : FdContext)
    → get_elem? (l ++ new_contexts i n) g ≡ some c
    → (get_elem? l g ≡ some c) ⊎ ((get_elem? l g ≡ none) × (c.events ≡ 0))
get_elem?-append_new [] i n g c e = inr (refl, get_elem?-new i n g c e)
get_elem?-append_new (x ∷ xs) i n zero c e = inl e
get_elem?-append_new (x ∷ xs) i n (suc g) c e = get_elem?-append_new xs i n g c e

-- A context of the grown table was there before, or has no events.
pub get_elem?-table_for_inv :
    (fd g : ℕ) (l : List FdContext) (c : FdContext)
    → get_elem? (table_for fd l) g ≡ some c
    → (get_elem? l g ≡ some c) ⊎ ((get_elem? l g ≡ none) × (c.events ≡ 0))
get_elem?-table_for_inv fd g l c e =
    get_elem?-append_new l (length l) (added fd l) g c (rw table_for_lem at e)

pub get_elem?-lt :
    (l : List FdContext) (g : ℕ) → g < length l → (c : FdContext) × (get_elem? l g ≡ some c)
get_elem?-lt [] g h = absurd (omega arith)
get_elem?-lt (x ∷ xs) zero h = (x, refl)
get_elem?-lt (x ∷ xs) (suc g) h = get_elem?-lt xs g (omega arith)

pub length-set : (l : List FdContext) (g : ℕ) (c : FdContext) → length (set l g c) ≡ length l
length-set [] g c = refl
length-set (x ∷ xs) zero c = refl
length-set (x ∷ xs) (suc g) c = ap suc (length-set xs g c)
