-- ===== src/Config/Cast/Unordered.antt =====
-- config/config.cpp: the specialisations of `LexicalCast` for `std::unordered_set` and
-- `std::unordered_map`. A hash container is the list of its entries; in which order it is iterated
-- is an argument, and the abstract container forgets the order.
use mathlib.Core.List.{append_assoc}
use mathlib.Core.Quot.{Quot}
use mathlib.Core.Path.{subst}
use fxk.Base.{
  Bool, true, false, Option, none, some, is_set, List, [], ◌∷◌, ◌++◌, if◌then◌else◌, Bytes,
  bytes_eq, Result, ok, ◌>>=◌, All, ◌≡◌, refl, sym, ◌∙◌, inl, inr, arith, Bool-cases,
}
use fxk.Config.Cast.{Yaml, LexicalCast, read_element, write_elements, write_pairs}

module _ {E : Type 0} (same_key : E → E → Bool) where
  -- The entry with the key of `x`.
  abbrev pub entry : E → List E → Option E
  entry x [] = none
  entry x (y ∷ l) = if same_key y x then some y else entry x l

  -- `insert`: an entry with the same key stays.
  unfoldable pub add : E → List E → List E
  add x l = if is_set (entry x l) then l else l ++ x ∷ []

  -- No key comes twice, behind those of `before`.
  abbrev pub AreNew : List E → List E → Type 0
  AreNew before [] = Unit {0}
  AreNew before (x ∷ l) = (entry x before ≡ none) × AreNew (before ++ x ∷ []) l

  -- Two lists of entries are one container.
  abbrev pub SameEntries : List E → List E → Type 0
  SameEntries l m = (x : E) → entry x l ≡ entry x m

  -- A hash container, without the order of its entries.
  abbrev pub HashContainer : Type 0
  HashContainer = Quot SameEntries

  -- An iteration comes by every entry once.
  pub record IsOrder (order : List E → List E) : Type 0 where
    pub same : (l : List E) → SameEntries (order l) l
    pub each_once : (l : List E) → AreNew [] l → AreNew [] (order l)

  pub add_last : (x : E) (l : List E) → entry x l ≡ none → add x l ≡ l ++ x ∷ []
  unfolding add
  add_last x l h = rw h refl

  -- What holds of each entry that is found, holds of all entries that are iterated.
  pub All-entry :
      (P : E → Type 0) (before l : List E)
      → ((x : E) → same_key x x ≡ true)
      → ((x y : E) → entry x (before ++ l) ≡ some y → P y)
      → AreNew before l
      → All P l
  All-entry P before [] r h a = tt
  All-entry P before (x ∷ l) r h a = (
    h x x (found before a.0),
    All-entry P (before ++ x ∷ []) l r (λ y z e. h y z (rw append_assoc at e)) a.1,
  )
    where
      found : (b : List E) → entry x b ≡ none → entry x (b ++ x ∷ l) ≡ some x
      found [] e = rw (r x) refl
      found (y ∷ b) e = elim (Bool-cases (same_key y x)) [
        | inl k ↦ ground (arith, rw k at e)
        | inr k ↦ rw k (found b (rw k at e))
      ]

  entry-All : (P : E → Type 0) (x y : E) (l : List E) → All P l → entry x l ≡ some y → P y
  entry-All P x y [] h e = ground (arith, e)
  entry-All P x y (z ∷ l) h e = elim (Bool-cases (same_key z x)) [
    | inl k ↦ subst P (ground (arith, rw k at e)) h.0
    | inr k ↦ entry-All P x y l h.1 (rw k at e)
  ]

  -- What holds of all entries, holds of all in the order of an iteration.
  pub All-order :
      (P : E → Type 0) (order : List E → List E) (l : List E)
      → ((x : E) → same_key x x ≡ true)
      → IsOrder order
      → AreNew [] l
      → All P l
      → All P (order l)
  All-order P order l r o a h =
      All-entry P [] (order l) r (λ x y e. entry-All P x y l h (sym (o.same l x) ∙ e))
        (o.each_once l a)

  new_apart :
      (x y : E) (before rest : List E) → entry y (before ++ x ∷ rest) ≡ none → same_key x y ≡ false
  new_apart x y [] rest e = elim (Bool-cases (same_key x y)) [
    | inl k ↦ ground (arith, rw k at e)
    | inr k ↦ k
  ]
  new_apart x y (z ∷ before) rest e = elim (Bool-cases (same_key z y)) [
    | inl k ↦ ground (arith, rw k at e)
    | inr k ↦ new_apart x y before rest (rw k at e)
  ]

  -- An entry has another key than all entries behind it.
  pub AreNew-apart :
      (x : E) (before rest l : List E)
      → AreNew (before ++ x ∷ rest) l
      → All (λ y. same_key x y ≡ false) l
  AreNew-apart x before rest [] a = tt
  AreNew-apart x before rest (y ∷ l) a = (
    new_apart x y before rest a.0,
    AreNew-apart x before (rest ++ y ∷ []) l (rw append_assoc at a.1),
  )

module _ (yaml : Yaml) {T : Type 0} (cast : LexicalCast T) where
  open yaml use {Node, load, emit, sequence, elements, mapping, pairs}

  unfoldable pub add_elements : (T → T → Bool) → List Node → List T → Result (List T)
  add_elements same [] set = ok set
  add_elements same (n ∷ l) set = do
    x ← read_element yaml cast n
    add_elements same l (add same x set)

  -- `std::unordered_set<T>`.
  unfoldable pub unordered_set_cast : (T → T → Bool) → (List T → List T) → LexicalCast (List T)
  unordered_set_cast same order = record {
    from_str = λ s. load s >>= λ node. add_elements same (elements node) [];
    to_str = λ v. write_elements yaml cast (order v) >>= λ nodes. ok (emit (sequence nodes));
  }

  abbrev pub same_name : Bytes × T → Bytes × T → Bool
  same_name (j, y) (k, x) = bytes_eq j k

  unfoldable pub add_pairs : List (Bytes × Node) → List (Bytes × T) → Result (List (Bytes × T))
  add_pairs [] map = ok map
  add_pairs ((k, n) ∷ l) map = do
    x ← read_element yaml cast n
    add_pairs l (add same_name (k, x) map)

  -- `std::unordered_map<std::string, T>`.
  unfoldable pub unordered_map_cast :
      (List (Bytes × T) → List (Bytes × T)) → LexicalCast (List (Bytes × T))
  unordered_map_cast order = record {
    from_str = λ s. load s >>= λ node. add_pairs (pairs node) [];
    to_str = λ v. write_pairs yaml cast (order v) >>= λ nodes. ok (emit (mapping nodes));
  }
