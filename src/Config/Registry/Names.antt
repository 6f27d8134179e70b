-- ===== src/Config/Registry/Names.antt =====
-- config/config.cpp: the names that `Config::Lookup` takes, and the variables it gives.
use fxk.Base.{
  ℕ, Bool, true, false, ◌&&◌, Option, none, some, [], ◌∷◌, ◌++◌, ◌≡◌, refl, sym, ap, ◌∙◌, ◌⊎◌, inl,
  inr, arith, ◌==◌, ==_iff, ==_refl, Bytes, bytes_eq, bytes_eq_refl, bytes_eq_iff, ok, err,
  invalid_argument, Bool-cases, Option-cases, All,
}
use fxk.Config.Variable.{new_var, lower_name, to_lower}
use fxk.Config.Registry.{
  Var, Datas, valid_characters, any_eq, is_valid_name, find_data, pointer_cast, lookup_or_make,
  lookup,
}

find_data_head :
    (name : Bytes) (x : Var) (datas : Datas) → find_data name ((name, x) ∷ datas) ≡ some x
unfolding find_data
find_data_head name x datas = rw (bytes_eq_refl name) refl

some_is_not_none : {A : Type 0} (x : A) → none ≡ some x → ⊥
some_is_not_none x e = ground arith

find_data_kept :
    (name other : Bytes) (x y : Var) (datas : Datas)
    → find_data name datas ≡ none
    → find_data other datas ≡ some y
    → find_data other ((name, x) ∷ datas) ≡ some y
unfolding find_data
find_data_kept name other x y datas e h = elim (Bool-cases (bytes_eq other name)) [
  | inl same ↦ absurd (
      some_is_not_none y
        (sym e ∙ ap (λ n. find_data n datas) (sym ((bytes_eq_iff other name).0 same)) ∙ h))
  | inr differs ↦ rw differs h
]

lookup_found :
    (name : Bytes) (t : ℕ) (datas : Datas) (x : Var)
    → find_data name datas ≡ some x
    → lookup name t datas ≡ pointer_cast t x
unfolding lookup
lookup_found name t datas x e = rw (e, lookup)

lookup-eq-some :
    (name : Bytes) (t place : ℕ) (datas : Datas)
    → lookup name t datas ≡ some place
    → (x : Var) × (find_data name datas ≡ some x) × (pointer_cast t x ≡ some place)
unfolding lookup
lookup-eq-some name t place datas h = elim (Option-cases (find_data name datas)) [
  | inl e ↦ absurd (some_is_not_none place (sym (rw (e, lookup)) ∙ h))
  | inr (x, e) ↦ (x, e, sym (lookup_found name t datas x e) ∙ h)
]

lookup_or_make_found :
    (name : Bytes) (t fresh : ℕ) (datas : Datas) (x : Var)
    → find_data name datas ≡ some x
    → lookup_or_make name t fresh datas ≡ ok (pointer_cast t x, datas)
unfolding lookup_or_make
lookup_or_make_found name t fresh datas x e = rw (e, lookup_or_make)

-- Every name of the map is valid.
abbrev pub AreNamed : Datas → Type 0
AreNamed datas = All (λ ((k, v) : Bytes × Var). is_valid_name k ≡ true) datas

-- What a `Lookup` with a default value leaves.
pub record LooksUp (name : Bytes) (type_id : ℕ) (datas : Datas) (found : Option ℕ) (datas' : Datas)
    : Type 0 where
  pub named : AreNamed datas'
  pub again : lookup name type_id datas' ≡ found
  pub stable : (fresh : ℕ) → lookup_or_make name type_id fresh datas' ≡ ok (found, datas')
  pub kept :
      (other : Bytes) (t place : ℕ)
      → lookup other t datas ≡ some place
      → lookup other t datas' ≡ some place

-- `Lookup` with a default value, on a map of valid names. If the name is new and not valid, it
-- throws `std::invalid_argument`. If the name is new and valid, it gives the variable that it has
-- made. If the name is known, it gives that variable, or null where its type is another one, and
-- changes nothing. Where it does not throw: the map has valid names; a later `Lookup` of either
-- kind for that name and type gives the same and changes nothing; and all variables that were found
-- before are still found.
pub lookup_or_make-LooksUp :
    (name : Bytes) (type_id fresh : ℕ) (datas : Datas)
    → AreNamed datas
    → ((find_data name datas ≡ none)
        × (is_valid_name name ≡ false)
        × (lookup_or_make name type_id fresh datas ≡ err invalid_argument))
      ⊎ ((find_data name datas ≡ none)
          × (is_valid_name name ≡ true)
          × ((datas' : Datas) × (lookup_or_make name type_id fresh datas ≡ ok (some fresh, datas'))
              × LooksUp name type_id datas (some fresh) datas'))
      ⊎ ((x : Var) × (find_data name datas ≡ some x)
          × (lookup_or_make name type_id fresh datas ≡ ok (pointer_cast type_id x, datas))
          × LooksUp name type_id datas (pointer_cast type_id x) datas)
unfolding lookup_or_make lookup find_data
lookup_or_make-LooksUp name type_id fresh datas v = elim (Option-cases (find_data name datas)) [
  | inr (x, e) ↦ inr (
      inr (
        x,
        e,
        rw (e, lookup_or_make),
        record {
          named = v;
          again = rw (e, lookup);
          stable = λ fresh. rw (e, lookup_or_make);
          kept = λ other t place h. h;
        },
      ))
  | inl e ↦ elim (Bool-cases (is_valid_name name)) [
    | inr bad ↦ inl (e, bad, rw (e, lookup_or_make) (rw bad refl))
    | inl good ↦
        let new : Bytes × Var = (name, record { type_id = type_id; place = fresh }) in
        let head = find_data_head name new.1 datas in
        inr (
          inl (
            e,
            good,
            (
              new ∷ datas,
              rw (e, lookup_or_make) (rw good refl),
              record {
                named = (good, v);
                again =
                    lookup_found name type_id (new ∷ datas) new.1 head ∙ rw (==_refl type_id) refl;
                stable = λ f.
                    lookup_or_make_found name type_id f (new ∷ datas) new.1 head
                    ∙ rw (==_refl type_id) refl;
                kept = λ other t place h.
                    (let (x, found, cast) = lookup-eq-some other t place datas h in
                      lookup_found other t (new ∷ datas) x
                        (find_data_kept name other new.1 x datas e found)
                      ∙ cast);
              },
            ),
          ))
  ]
]

false_is_not_true : false ≡ true → ⊥
false_is_not_true e = ground arith

-- `::tolower` leaves a character of the list as it is, if it does so with every one.
lowers : Bytes → Bool
lowers [] = true
lowers (c ∷ s) = to_lower c == c && lowers s

lowers_any : (c : ℕ) (s : Bytes) → any_eq c s ≡ true → lowers s ≡ true → to_lower c ≡ c
unfolding lowers
lowers_any c (d ∷ s) h k = elim (Bool-cases (c == d)) [
  | inl same ↦ (let e = (==_iff c d).0 same in rw e ((==_iff (to_lower d) d).0 (ground arith)))
  | inr differs ↦ lowers_any c s (sym (rw differs refl) ∙ h) (ground arith)
]
lowers_any c [] h k = absurd (ground arith)

valid_characters-lowers : lowers valid_characters ≡ true
unfolding lowers
valid_characters-lowers = refl

is_valid_name-lower_name : (name : Bytes) → is_valid_name name ≡ true → lower_name name ≡ name
unfolding is_valid_name lower_name
is_valid_name-lower_name [] h = refl
is_valid_name-lower_name (c ∷ s) h = elim (Bool-cases (any_eq c valid_characters)) [
  | inl valid ↦
      rw (lowers_any c valid_characters valid valid_characters-lowers)
        (ap (◌∷◌ c) (is_valid_name-lower_name s (sym (rw valid refl) ∙ h)))
  | inr invalid ↦ absurd (false_is_not_true (sym (rw invalid refl) ∙ h))
]

nine_is_invalid : (before after : Bytes) → is_valid_name (before ++ 57 ∷ after) ≡ false
unfolding is_valid_name
nine_is_invalid [] after = refl
nine_is_invalid (c ∷ s) after = rw (nine_is_invalid s after) (ground arith)

-- A name that `Lookup` takes is the name of the variable it makes: `::tolower` leaves it as it is.
pub is_valid_name-new_var :
    (W A : Type 0) (name : Bytes) (default_value : A) (description : Bytes)
    → is_valid_name name ≡ true
    → (new_var {W = W} name default_value description).name ≡ name
unfolding new_var
is_valid_name-new_var W A name d description h = is_valid_name-lower_name name h

-- A name with the digit 9 that is not in the map is refused, though the comments allow it.
pub lookup_or_make-nine :
    (before after : Bytes) (type_id fresh : ℕ) (datas : Datas)
    → find_data (before ++ 57 ∷ after) datas ≡ none
    → lookup_or_make (before ++ 57 ∷ after) type_id fresh datas ≡ err invalid_argument
unfolding lookup_or_make
lookup_or_make-nine before after type_id fresh datas h =
    rw (h, lookup_or_make) (rw (nine_is_invalid before after) refl)
