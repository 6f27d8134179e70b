-- ===== src/Config/Cast/RoundTrip.antt =====
-- config/config.cpp: the casts of containers, written and read back.
use mathlib.Core.List.{append-nil, append_assoc}
use mathlib.Core.Path.{subst}
use fxk.Base.{
  Bool, true, false, ok, ◌>>=◌, List, [], ◌∷◌, ◌++◌, ◌≡◌, ◌≢◌, refl, sym, ap, ◌∙◌, Bytes, All, map,
}
use fxk.Config.Cast.{
  Yaml, LexicalCast, insert, insert_pair, read_element, write_element, read_elements,
  write_elements, vector_cast, insert_elements, set_cast, insert_pairs, write_pairs, map_cast,
}

-- Every element is below all that follow it, and not above.
abbrev pub IsAscending : {T : Type 0} → (T → T → Bool) → List T → Type 0
IsAscending less [] = Unit {0}
IsAscending less (x ∷ l) = All (λ y. (less x y ≡ true) × (less y x ≡ false)) l × IsAscending less l

abbrev pub keys : {T : Type 0} → List (Bytes × T) → List Bytes
keys [] = []
keys ((k, x) ∷ l) = k ∷ keys l

abbrev pub AreDistinct : List Bytes → Type 0
AreDistinct [] = Unit {0}
AreDistinct (k ∷ l) = All (λ j. k ≢ j) l × AreDistinct l

-- What the casts rely on: a text that is emitted loads as its node, and a node gives back what it
-- is made of; a map has each key once.
pub record IsYaml (yaml : Yaml) : Type 0 where
  pub load-emit : (n : yaml.Node) → yaml.load (yaml.emit n) ≡ ok n
  pub elements-sequence : (l : List yaml.Node) → yaml.elements (yaml.sequence l) ≡ l
  pub pairs-mapping :
      (l : List (Bytes × yaml.Node)) → AreDistinct (keys l) → yaml.pairs (yaml.mapping l) ≡ l

-- The value has a text, the text has a node, and the node is read back as the value.
abbrev pub IsSafe : (yaml : Yaml) {T : Type 0} → LexicalCast T → T → Type 0
IsSafe yaml cast x =
    (s : Bytes) × (n : yaml.Node) × (cast.to_str x ≡ ok s)
    × (yaml.load s ≡ ok n)
    × (cast.from_str (yaml.emit n) ≡ ok x)

-- Elements inserted behind those that are below them.
module _ {T : Type 0} (less : T → T → Bool) where
  abbrev IsAbove : T → List T → Type 0
  IsAbove x l = All (λ y. (less y x ≡ true) × (less x y ≡ false)) l

  insert_last : (x : T) (l : List T) → IsAbove x l → insert less x l ≡ l ++ x ∷ []
  unfolding insert
  insert_last x [] h = refl
  insert_last x (y ∷ l) h = rw h.0.1 (rw h.0.0 (ap (◌∷◌ y) (insert_last x l h.1)))

  All-append :
      (x : T) (l v : List T)
      → All (λ y. (less x y ≡ true) × (less y x ≡ false)) (l ++ v)
      → All (λ y. (less x y ≡ true) × (less y x ≡ false)) v
  All-append x [] v h = h
  All-append x (y ∷ l) v h = All-append x l v h.1

  first_of : (x : T) (P : T → Type 0) (l v : List T) → All P (l ++ x ∷ v) → P x
  first_of x P [] v h = h.0
  first_of x P (y ∷ l) v h = first_of x P l v h.1

  pub IsAscending-IsAbove : (x : T) (l v : List T) → IsAscending less (l ++ x ∷ v) → IsAbove x l
  IsAscending-IsAbove x [] v h = tt
  IsAscending-IsAbove x (y ∷ l) v h = (
    first_of x (λ z. (less y z ≡ true) × (less z y ≡ false)) l v h.0,
    IsAscending-IsAbove x l v h.1,
  )

-- The pair of the last key.
insert_pair_last :
    {T : Type 0} (less : Bytes → Bytes → Bool) (k : Bytes) (x : T) (l : List (Bytes × T))
    → All (λ y. (less y k ≡ true) × (less k y ≡ false)) (keys l)
    → insert_pair less (k, x) l ≡ l ++ (k, x) ∷ []
unfolding insert_pair
insert_pair_last less k x [] h = refl
insert_pair_last less k x ((j, y) ∷ l) h =
    rw h.0.1 (rw h.0.0 (ap (◌∷◌ (j, y)) (insert_pair_last less k x l h.1)))

keys-append : {T : Type 0} (l v : List (Bytes × T)) → keys (l ++ v) ≡ keys l ++ keys v
keys-append [] v = refl
keys-append ((k, x) ∷ l) v = ap (◌∷◌ k) (keys-append l v)

module _ (yaml : Yaml) (laws : IsYaml yaml) {T : Type 0} (cast : LexicalCast T) where
  open yaml use {Node, load, emit, sequence, elements, mapping, pairs}

  -- The node of a safe element.
  element_node :
      (x : T)
      → IsSafe yaml cast x
      → (n : Node) × (write_element yaml cast x ≡ ok n) × (read_element yaml cast n ≡ ok x)
  unfolding write_element read_element
  element_node x (s, n, w, l, r) = (n, rw w l, r)

  -- The nodes stand for the elements, one by one.
  abbrev pub Stand : List Node → List T → Type 0
  Stand [] [] = Unit {0}
  Stand (n ∷ l) (x ∷ v) = (read_element yaml cast n ≡ ok x) × Stand l v
  Stand [] (x ∷ v) = ⊥
  Stand (n ∷ l) [] = ⊥

  pub element_nodes :
      (v : List T)
      → All (IsSafe yaml cast) v
      → (nodes : List Node) × (write_elements yaml cast v ≡ ok nodes) × Stand nodes v
  unfolding write_elements
  element_nodes [] h = ([], refl, tt)
  element_nodes (x ∷ v) h =
      let (n, w, r) = element_node x h.0 in
      let (nodes, ws, rs) = element_nodes v h.1 in (n ∷ nodes, rw w (rw ws refl), (r, rs))

  read_back :
      (nodes : List Node) (v vec : List T)
      → Stand nodes v
      → read_elements yaml cast nodes vec ≡ ok (vec ++ v)
  unfolding read_elements
  read_back [] [] vec h = rw append-nil refl
  read_back [] (x ∷ v) vec h = absurd h
  read_back (n ∷ nodes) [] vec h = absurd h
  read_back (n ∷ nodes) (x ∷ v) vec h =
      rw h.0 (read_back nodes v (vec ++ x ∷ []) h.1 ∙ rw append_assoc refl)

  -- A vector or list of values whose texts are read back is written as a text from which it is
  -- read back, also as an element of another container.
  pub vector_cast-IsSafe :
      (v : List T)
      → All (IsSafe yaml cast) v
      → IsSafe yaml (vector_cast yaml cast) v
        × (((vector_cast yaml cast).to_str v >>= λ s. (vector_cast yaml cast).from_str s) ≡ ok v)
  unfolding vector_cast
  vector_cast-IsSafe v h =
      let (nodes, w, r) = element_nodes v h in
      let n = sequence nodes in
      let back = read_back nodes v [] r in
      (
        (
          emit n,
          n,
          rw w refl,
          laws.load-emit n,
          rw (laws.load-emit n) (rw (laws.elements-sequence nodes) back),
        ),
        rw w (rw (laws.load-emit n) (rw (laws.elements-sequence nodes) back)),
      )

  pub insert_back :
      (less : T → T → Bool) (nodes : List Node) (v set : List T)
      → Stand nodes v
      → IsAscending less (set ++ v)
      → insert_elements yaml cast less nodes set ≡ ok (set ++ v)
  unfolding insert_elements
  insert_back less [] [] set h a = rw append-nil refl
  insert_back less [] (x ∷ v) set h a = absurd h
  insert_back less (n ∷ nodes) [] set h a = absurd h
  insert_back less (n ∷ nodes) (x ∷ v) set h a =
      let last = insert_last less x set (IsAscending-IsAbove less x set v a) in
      let whole : set ++ x ∷ v ≡ (set ++ x ∷ []) ++ v = rw append_assoc refl in
      rw h.0 (
        rw last (
          insert_back less nodes v (set ++ x ∷ []) h.1 (subst (IsAscending less) whole a)
          ∙ ap ok (sym whole)))

  -- The same for a set, whose elements ascend.
  pub set_cast-IsSafe :
      (less : T → T → Bool) (v : List T)
      → IsAscending less v
      → All (IsSafe yaml cast) v
      → IsSafe yaml (set_cast yaml cast less) v
        × (((set_cast yaml cast less).to_str v >>= λ s. (set_cast yaml cast less).from_str s)
            ≡ ok v)
  unfolding set_cast
  set_cast-IsSafe less v a h =
      let (nodes, w, r) = element_nodes v h in
      let n = sequence nodes in
      let back = insert_back less nodes v [] r a in
      (
        (
          emit n,
          n,
          rw w refl,
          laws.load-emit n,
          rw (laws.load-emit n) (rw (laws.elements-sequence nodes) back),
        ),
        rw w (rw (laws.load-emit n) (rw (laws.elements-sequence nodes) back)),
      )

  abbrev pub StandPairs : List (Bytes × Node) → List (Bytes × T) → Type 0
  StandPairs [] [] = Unit {0}
  StandPairs ((j, n) ∷ l) ((k, x) ∷ v) =
      (j ≡ k) × (read_element yaml cast n ≡ ok x) × StandPairs l v
  StandPairs [] (x ∷ v) = ⊥
  StandPairs (n ∷ l) [] = ⊥

  abbrev pub AreSafe : List (Bytes × T) → Type 0
  AreSafe v = All (λ ((k, x) : Bytes × T). IsSafe yaml cast x) v

  pub pair_nodes :
      (v : List (Bytes × T))
      → AreSafe v
      → (nodes : List (Bytes × Node)) × (write_pairs yaml cast v ≡ ok nodes)
        × StandPairs nodes v
        × (keys nodes ≡ keys v)
  unfolding write_pairs
  pair_nodes [] h = ([], refl, tt, refl)
  pair_nodes ((k, x) ∷ v) h =
      let (n, w, r) = element_node x h.0 in
      let (nodes, ws, rs, same) = pair_nodes v h.1 in
      ((k, n) ∷ nodes, rw w (rw ws refl), (refl, r, rs), ap (◌∷◌ k) same)

  pairs_back :
      (less : Bytes → Bytes → Bool) (nodes : List (Bytes × Node)) (v map : List (Bytes × T))
      → StandPairs nodes v
      → IsAscending less (keys map ++ keys v)
      → insert_pairs yaml cast less nodes map ≡ ok (map ++ v)
  unfolding insert_pairs
  pairs_back less [] [] map h a = rw append-nil refl
  pairs_back less [] (x ∷ v) map h a = absurd h
  pairs_back less (n ∷ nodes) [] map h a = absurd h
  pairs_back less ((j, n) ∷ nodes) ((k, x) ∷ v) map h a =
      let last = insert_pair_last less k x map (IsAscending-IsAbove less k (keys map) (keys v) a) in
      let whole : map ++ (k, x) ∷ v ≡ (map ++ (k, x) ∷ []) ++ v = rw append_assoc refl in
      let longer : keys map ++ k ∷ keys v ≡ keys (map ++ (k, x) ∷ []) ++ keys v =
        rw keys-append (rw append_assoc refl) in
      rw h.1 (
        rw h.0 (
          rw last (
            pairs_back less nodes v (map ++ (k, x) ∷ []) h.2 (subst (IsAscending less) longer a)
            ∙ ap ok (sym whole))))

  -- The same for a map, whose keys ascend and are distinct.
  pub map_cast-IsSafe :
      (less : Bytes → Bytes → Bool) (v : List (Bytes × T))
      → IsAscending less (keys v)
      → AreDistinct (keys v)
      → AreSafe v
      → IsSafe yaml (map_cast yaml cast less) v
        × (((map_cast yaml cast less).to_str v >>= λ s. (map_cast yaml cast less).from_str s)
            ≡ ok v)
  unfolding map_cast
  map_cast-IsSafe less v a d h =
      let (nodes, w, r, same) = pair_nodes v h in
      let n = mapping nodes in
      let made = laws.pairs-mapping nodes (rw same d) in
      let back = pairs_back less nodes v [] r a in
      (
        (emit n, n, rw w refl, laws.load-emit n, rw (laws.load-emit n) (rw made back)),
        rw w (rw (laws.load-emit n) (rw made back)),
      )
