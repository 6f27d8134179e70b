-- ===== src/Config/Cast.antt =====
-- config/config.cpp: the specialisations of `LexicalCast` for vectors, lists, sets and maps, over
-- the YAML library.
pub mod RoundTrip
pub mod Unordered
pub mod Reordered
use fxk.Base.{Bool, Result, ok, ◌>>=◌, List, [], ◌∷◌, ◌++◌, ◌≡◌, if◌then◌else◌, Bytes}

-- yaml-cpp: `YAML::Load`, which may throw, `ss << node`, and the nodes that are sequences and maps:
-- made of their elements, and read by index or by iterator.
pub record Yaml : Type 1 where
  pub Node : Type 0
  pub load : Bytes → Result Node
  pub emit : Node → Bytes
  pub sequence : List Node → Node
  pub elements : Node → List Node
  pub mapping : List (Bytes × Node) → Node
  pub pairs : Node → List (Bytes × Node)

-- `LexicalCast<std::string, T>`, which may throw, and `LexicalCast<T, std::string>`.
pub record LexicalCast (T : Type 0) : Type 0 where
  pub from_str : Bytes → Result T
  pub to_str : T → Result Bytes

-- `std::set` and `std::map`: `insert` into elements that ascend, a key that is there stays.
module _ {T : Type 0} (less : T → T → Bool) where
  pub insert : T → List T → List T
  insert x [] = x ∷ []
  insert x (y ∷ l) = if less x y then x ∷ y ∷ l else (if less y x then y ∷ insert x l else y ∷ l)

module _ {T : Type 0} (less : Bytes → Bytes → Bool) where
  unfoldable pub insert_pair : Bytes × T → List (Bytes × T) → List (Bytes × T)
  insert_pair (k, x) [] = (k, x) ∷ []
  insert_pair (k, x) ((j, y) ∷ l) =
      if less k j
      then (k, x) ∷ (j, y) ∷ l
      else (if less j k then (j, y) ∷ insert_pair (k, x) l else (j, y) ∷ l)

module _ (yaml : Yaml) where
  open yaml use {Node, load, emit, sequence, elements, mapping, pairs}

  module _ {T : Type 0} (cast : LexicalCast T) where
    -- One element, through its own text.
    unfoldable pub read_element : Node → Result T
    read_element n = cast.from_str (emit n)

    pub write_element : T → Result Node
    write_element x = do s ← cast.to_str x; load s

    -- `push_back` of each element.
    pub read_elements : List Node → List T → Result (List T)
    unfolding read_element
    read_elements [] vec = ok vec
    read_elements (n ∷ l) vec = do x ← read_element n; read_elements l (vec ++ x ∷ [])

    pub write_elements : List T → Result (List Node)
    unfolding write_element
    write_elements [] = ok []
    write_elements (x ∷ l) = do n ← write_element x; rest ← write_elements l; ok (n ∷ rest)

    -- `std::vector<T>` and `std::list<T>`.
    unfoldable pub vector_cast : LexicalCast (List T)
    unfolding read_elements write_elements
    vector_cast = record {
      from_str = λ s. load s >>= λ node. read_elements (elements node) [];
      to_str = λ v. write_elements v >>= λ nodes. ok (emit (sequence nodes));
    }

    -- `std::set<T>`: `insert` of each element.
    pub insert_elements : (T → T → Bool) → List Node → List T → Result (List T)
    unfolding read_element insert
    insert_elements less [] set = ok set
    insert_elements less (n ∷ l) set = do
      x ← read_element n
      insert_elements less l (insert less x set)

    unfoldable pub set_cast : (T → T → Bool) → LexicalCast (List T)
    unfolding insert_elements write_elements
    set_cast less = record {
      from_str = λ s. load s >>= λ node. insert_elements less (elements node) [];
      to_str = λ v. write_elements v >>= λ nodes. ok (emit (sequence nodes));
    }

    -- `std::map<std::string, T>`: its pairs by ascending keys.
    pub insert_pairs :
        (Bytes → Bytes → Bool) → List (Bytes × Node) → List (Bytes × T) → Result (List (Bytes × T))
    unfolding read_element insert_pair
    insert_pairs less [] map = ok map
    insert_pairs less ((k, n) ∷ l) map = do
      x ← read_element n
      insert_pairs less l (insert_pair less (k, x) map)

    pub write_pairs : List (Bytes × T) → Result (List (Bytes × Node))
    unfolding write_element
    write_pairs [] = ok []
    write_pairs ((k, x) ∷ l) = do n ← write_element x; rest ← write_pairs l; ok ((k, n) ∷ rest)

    unfoldable pub map_cast : (Bytes → Bytes → Bool) → LexicalCast (List (Bytes × T))
    unfolding insert_pairs write_pairs
    map_cast less = record {
      from_str = λ s. load s >>= λ node. insert_pairs less (pairs node) [];
      to_str = λ v. write_pairs v >>= λ nodes. ok (emit (mapping nodes));
    }
