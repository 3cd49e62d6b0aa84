-- ===== src/Domain/Objects/Stores.antt =====
-- Loops that store at most one value for each item, under the item's name, as the loops of
-- src/netauto/domain/objects.py and relationships.py on properties do.
use netauto.Prelude.{
  ◌≡◌, refl, sym, ap, ◌∙◌, true, false, Option, none, some, List, [], ◌∷◌, map, arith, Text, ◌==◌,
  ℕ_eq, same_refl, list_beq_iff, list_eq, option_eq, All, contains, distinct, Result, ok,
}
use netauto.Prelude.Dict.{Dict, dict_get, dict_get-set}
use netauto.Domain.Value.{Value}
use netauto.Domain.Errors.{DomainError}
use netauto.Domain.Objects.{store}

dict_get-store :
    (name key : Text) (value : Option Value) (d : Dict Text Value)
    → (key == name) ≡ false
    → dict_get name (store key value d) ≡ dict_get name d
dict_get-store name key none d h = refl
dict_get-store name key (some v) d h = dict_get-set name key v d ∙ rw h refl

stored_value :
    (name : Text) (value : Option Value) (d : Dict Text Value)
    → dict_get name d ≡ none
    → dict_get name (store name value d) ≡ value
stored_value name none d h = h
stored_value name (some v) d h = dict_get-set name name v d ∙ rw (same_refl name) refl

-- no value yet under any of the names
abbrev pub Fresh : Dict Text Value → List Text → Type 0
Fresh d names = All (λ name. dict_get name d ≡ none) names

pub nothing-Fresh : (names : List Text) → Fresh [] names
unfolding dict_get
nothing-Fresh [] = tt
nothing-Fresh (name ∷ rest) = (refl, nothing-Fresh rest)

store-Fresh :
    (key : Text) (value : Option Value) (d : Dict Text Value) (names : List Text)
    → contains names key ≡ false
    → Fresh d names
    → Fresh (store key value d) names
unfolding contains
store-Fresh key value d [] h f = tt
store-Fresh key value d (name ∷ rest) h f = (
  dict_get-store name key value d (ground (arith, list_beq_iff key name, list_beq_iff name key))
      ∙ f.0,
  store-Fresh key value d rest (ground arith) f.1,
)

pub map-map {ℓ} :
    {A B C : Type ℓ} (f : B → C) (g : A → B) (xs : List A)
    → map f (map g xs) ≡ map (λ x. f (g x)) xs
map-map f g [] = refl
map-map f g (x ∷ xs) = ap (λ rest. f (g x) ∷ rest) (map-map f g xs)

module _ {A : Type 0} (name_of : A → Text) (value_of : A → Result DomainError (Option Value)) where
  -- From the one dict the loop over the items comes to the other.
  abbrev pub Stores : List A → Dict Text Value → Dict Text Value → Type 0
  Stores [] d result = d ≡ result
  Stores (item ∷ rest) d result =
      (value : Option Value) × (value_of item ≡ ok value)
      × Stores rest (store (name_of item) value d) result

  pub Stores-other :
      (items : List A) (d result : Dict Text Value) (name : Text)
      → contains (map name_of items) name ≡ false
      → Stores items d result
      → dict_get name result ≡ dict_get name d
  unfolding contains
  Stores-other [] d result name n s = ap (dict_get name) (sym s)
  Stores-other (item ∷ rest) d result name n (value, e, s) =
      Stores-other rest (store (name_of item) value d) result name (ground arith) s
      ∙ dict_get-store name (name_of item) value d (ground arith)

  -- Where no two items have one name, the value of each item stands under its name.
  pub Stores-found :
      (items : List A) (d result : Dict Text Value)
      → distinct (map name_of items) ≡ true
      → Fresh d (map name_of items)
      → Stores items d result
      → All (λ item. value_of item ≡ ok (dict_get (name_of item) result)) items
  unfolding distinct
  Stores-found [] d result u f s = tt
  Stores-found (item ∷ rest) d result u f (value, e, s) =
      let name = name_of item in
      let alone : contains (map name_of rest) name ≡ false = ground arith in
      let stored =
        Stores-other rest (store name value d) result name alone s
        ∙ stored_value name value d f.0 in
      (
        rw stored e,
        Stores-found rest (store name value d) result (ground arith)
            (store-Fresh name value d (map name_of rest) alone f.1) s,
      )
