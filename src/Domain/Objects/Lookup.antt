-- ===== src/Domain/Objects/Lookup.antt =====
-- What `canonicalize_properties` of src/netauto/domain/objects.py stores under each name.
use netauto.Prelude.{
  ◌≡◌, refl, true, false, none, List, [], ◌∷◌, Text, ℕ_eq, list_eq, option_eq, All, contains,
  distinct, Result, ok, err, bind_ok, ok_unique,
}
use netauto.Prelude.Dict.{Dict, dict_get}
use netauto.Domain.Objects.Stores.{Stores, Stores-other, Stores-found, nothing-Fresh}
use netauto.Domain.Value.{Value}
use netauto.Domain.Errors.{unknown_property}
use netauto.Domain.Objects.{
  ValidateValue, RuntimePropertySpec, canonicalize_each, canonicalize_properties, spec_names,
  canonicalize_property, store, unknown_names, object_error, property_of,
}
use netauto.Domain.Errors.{DomainError, unknown_property}

module _ (validate_value : ValidateValue) where
  -- each property of the result is what its spec makes of the property of the candidate
  abbrev pub IsCanonicalOf : Dict Text Value → List RuntimePropertySpec → Dict Text Value → Type 0
  IsCanonicalOf candidate specs result =
      All
        (λ spec.
          canonicalize_property validate_value spec (dict_get spec.name candidate)
          ≡ ok (dict_get spec.name result))
        specs

  each-Stores :
      (candidate : Dict Text Value) (specs : List RuntimePropertySpec) (canonical : Dict Text Value)
      {result : Dict Text Value}
      → canonicalize_each validate_value candidate specs canonical ≡ ok result
      → Stores
          (λ spec. spec.name)
          (λ spec. canonicalize_property validate_value spec (dict_get spec.name candidate))
          specs
          canonical
          result
  unfolding canonicalize_each
  each-Stores candidate [] canonical h = ok_unique _ refl h
  each-Stores candidate (spec ∷ rest) canonical h =
      let (value, e, k) = bind_ok (canonicalize_property validate_value spec _) _ h in
      (value, e, each-Stores candidate rest (store spec.name value canonical) k)

  pub canonicalize_properties_lem :
      (candidate : Dict Text Value) (specs : List RuntimePropertySpec) {result : Dict Text Value}
      → distinct (spec_names specs) ≡ true
      → canonicalize_properties validate_value candidate specs ≡ ok result
      → IsCanonicalOf candidate specs result
        × ((name : Text) → contains (spec_names specs) name ≡ false → dict_get name result ≡ none)
  unfolding canonicalize_properties
  canonicalize_properties_lem candidate specs {result} u h =
      let stores = each-Stores candidate specs [] (known (unknown_names candidate specs) _ h) in
      (
        Stores-found _ _ specs [] result u (nothing-Fresh (spec_names specs)) stores,
        λ name n. Stores-other _ _ specs [] result name n stores,
      )
    where
      known :
          (names : List Text) (r : Result DomainError (Dict Text Value)) {result : Dict Text Value}
          → (elim names [
            | [] ↦ r
            | name ∷ rest ↦ err (object_error (property_of name) unknown_property)
          ])
            ≡ ok result
          → r ≡ ok result
      known [] r h = h
      known (name ∷ rest) r h = absurd (cc h)
