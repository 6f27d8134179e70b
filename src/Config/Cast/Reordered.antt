-- ===== src/Config/Cast/Reordered.antt =====
-- config/config.cpp: hash containers, written and read back: the same container, in another order.
use mathlib.Core.List.{append-nil, append_assoc}
use mathlib.Core.Quot
use mathlib.Core.Quot.{Quot}
use fxk.Base.{
  Bool, true, false, List, [], ◌∷◌, ◌++◌, Bytes, bytes_eq_refl, bytes_eq_iff, ok, ◌>>=◌, All, ◌≡◌,
  ◌≢◌, refl, ◌∙◌, arith,
}
use fxk.Config.Cast.{Yaml, LexicalCast}
use fxk.Config.Cast.RoundTrip.{
  IsYaml, IsSafe, keys, AreDistinct, Stand, element_nodes, StandPairs, pair_nodes, AreSafe,
}
use fxk.Config.Cast.Unordered.{
  add_last, AreNew, HashContainer, IsOrder, All-order, AreNew-apart, add_elements,
  unordered_set_cast, same_name, add_pairs, unordered_map_cast,
}

module _ (yaml : Yaml) (laws : IsYaml yaml) {T : Type 0} (cast : LexicalCast T) where
  open yaml use {Node, load, emit, sequence, elements, mapping, pairs}

  add_back :
      (same : T → T → Bool) (nodes : List Node) (v set : List T)
      → Stand yaml laws cast nodes v
      → AreNew same set v
      → add_elements yaml cast same nodes set ≡ ok (set ++ v)
  unfolding add_elements
  add_back same [] [] set h a = rw append-nil refl
  add_back same [] (x ∷ v) set h a = absurd h
  add_back same (n ∷ nodes) [] set h a = absurd h
  add_back same (n ∷ nodes) (x ∷ v) set h a = rw h.0 (
      rw (add_last same x set a.0)
        (add_back same nodes v (set ++ x ∷ []) h.1 a.1 ∙ rw append_assoc refl))

  -- A hash set of values whose texts are read back is written as a text, from which a container of
  -- the same entries is read: the set as it was, where the order of entries is forgotten.
  pub unordered_set_cast-reads :
      (same : T → T → Bool) (order : List T → List T) (v : List T)
      → ((x : T) → same x x ≡ true)
      → IsOrder same order
      → AreNew same [] v
      → All (IsSafe yaml cast) v
      → (w : List T) × (((unordered_set_cast yaml cast same order).to_str v >>= λ s.
            (unordered_set_cast yaml cast same order).from_str s)
          ≡ ok w)
        × (◌≡◌ {A = HashContainer same} (Quot.mk w) (Quot.mk v))
  unfolding unordered_set_cast
  unordered_set_cast-reads same order v r o a h =
      let (nodes, w, stand) =
        element_nodes yaml laws cast (order v)
          (All-order same (IsSafe yaml cast) order v r o a h) in
      (
        order v,
        rw w (
            rw (laws.load-emit (sequence nodes)) (
              rw (laws.elements-sequence nodes)
                (add_back same nodes (order v) [] stand (o.each_once v a)))),
        Quot.sound (o.same v),
      )

  add_pairs_back :
      (nodes : List (Bytes × Node)) (v map : List (Bytes × T))
      → StandPairs yaml laws cast nodes v
      → AreNew (same_name yaml cast) map v
      → add_pairs yaml cast nodes map ≡ ok (map ++ v)
  unfolding add_pairs
  add_pairs_back [] [] map h a = rw append-nil refl
  add_pairs_back [] (x ∷ v) map h a = absurd h
  add_pairs_back (n ∷ nodes) [] map h a = absurd h
  add_pairs_back ((j, n) ∷ nodes) ((k, x) ∷ v) map h a = rw h.1 (
      rw h.0 (
        rw (add_last (same_name yaml cast) (k, x) map a.0)
          (add_pairs_back nodes v (map ++ (k, x) ∷ []) h.2 a.1 ∙ rw append_assoc refl)))

  apart-differ :
      (k : Bytes) (x : T) (l : List (Bytes × T))
      → All (λ y. same_name yaml cast (k, x) y ≡ false) l
      → All (λ j. k ≢ j) (keys l)
  apart-differ k x [] h = tt
  apart-differ k x ((j, y) ∷ l) h =
      (λ e. ground (arith, h.0, (bytes_eq_iff k j).1 e), apart-differ k x l h.1)

  AreNew-AreDistinct :
      (before v : List (Bytes × T)) → AreNew (same_name yaml cast) before v → AreDistinct (keys v)
  AreNew-AreDistinct before [] a = tt
  AreNew-AreDistinct before ((k, x) ∷ v) a = (
    apart-differ k x v (AreNew-apart (same_name yaml cast) (k, x) before [] v a.1),
    AreNew-AreDistinct (before ++ (k, x) ∷ []) v a.1,
  )

  -- A hash map from texts to values whose texts are read back is written as a text, from which a
  -- container of the same entries is read: the map as it was, where the order of entries is
  -- forgotten.
  pub unordered_map_cast-reads :
      (order : List (Bytes × T) → List (Bytes × T)) (v : List (Bytes × T))
      → IsOrder (same_name yaml cast) order
      → AreNew (same_name yaml cast) [] v
      → AreSafe yaml laws cast v
      → (w : List (Bytes × T)) × (((unordered_map_cast yaml cast order).to_str v >>= λ s.
            (unordered_map_cast yaml cast order).from_str s)
          ≡ ok w)
        × (◌≡◌ {A = HashContainer (same_name yaml cast)} (Quot.mk w) (Quot.mk v))
  unfolding unordered_map_cast
  unordered_map_cast-reads order v o a h =
      let (nodes, w, stand, same) = pair_nodes yaml laws cast (order v) (
        All-order (same_name yaml cast) (λ ((k, x) : Bytes × T). IsSafe yaml cast x) order v
          (λ (k, x). bytes_eq_refl k) o a h) in
      let distinct = AreNew-AreDistinct [] (order v) (o.each_once v a) in
      (
        order v,
        rw w (
            rw (laws.load-emit (mapping nodes)) (
              rw (laws.pairs-mapping nodes (rw same distinct))
                (add_pairs_back nodes (order v) [] stand (o.each_once v a)))),
        Quot.sound (o.same v),
      )
