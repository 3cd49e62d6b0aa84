-- ===== src/Domain/Objects/Changed.antt =====
-- The state after a data change, `apply_data_change` of src/netauto/domain/objects.py.
use netauto.Prelude.{
  ◌≡◌, refl, ap, subst, ◌∙◌, true, false, Option, none, some, List, [], ◌∷◌, if◌then◌else◌, Text,
  ◌==◌, ℕ_eq, list_eq, option_eq, All, contains, distinct, ok, bind_ok, guard_then, ok_unique,
  All-weaken,
}
use netauto.Prelude.Dict.{Dict, dict_get, dict_get-set, dict_get-pop, dict_set, dict_pop}
use netauto.Domain.Value.{Value}
use netauto.Domain.Objects.{
  ValidateValue, RuntimePropertySpec, DataChangeOperation, DataChangeKind, set, remove,
  apply_operations, apply_data_change, spec_names, canonicalize_property,
}
use netauto.Domain.Objects.Lookup.{canonicalize_properties_lem}

-- what the last of the operations on a name leaves under it
abbrev pub asked : DataChangeKind → Value → Option Value
asked set value = some value
asked remove value = none

-- the value that is asked for under a name: by the last operation on it, or the current one
abbrev pub requested : List DataChangeOperation → Option Value → Text → Option Value
requested [] current name = current
requested (operation ∷ rest) current name =
    requested rest
      (if operation.property == name then asked operation.op operation.value else current) name

one_operation :
    (operation : DataChangeOperation) (name : Text) (d : Dict Text Value)
    → dict_get name (elim operation.op [
      | set ↦ dict_set operation.property operation.value d
      | remove ↦ dict_pop operation.property d
    ])
      ≡ (if operation.property == name then asked operation.op operation.value else dict_get name d)
one_operation operation name d = go operation.op
  where
    go :
        (op : DataChangeKind)
        → dict_get name (elim op [
          | set ↦ dict_set operation.property operation.value d
          | remove ↦ dict_pop operation.property d
        ])
          ≡ (if operation.property == name then asked op operation.value else dict_get name d)
    go set = dict_get-set name operation.property operation.value d
    go remove = dict_get-pop name operation.property d

apply_operations-requested :
    (known : List Text) (operations : List DataChangeOperation) (d : Dict Text Value)
    {candidate : Dict Text Value}
    → apply_operations known operations d ≡ ok candidate
    → (name : Text) → dict_get name candidate ≡ requested operations (dict_get name d) name
unfolding apply_operations
apply_operations-requested known [] d h name = rw⁻¹ (ok_unique _ refl h) refl
apply_operations-requested known (operation ∷ rest) d h name =
    let (k, h₁) = guard_then (contains known operation.property) _ _ h in
    apply_operations-requested known rest _ h₁ name
    ∙ ap (λ value. requested rest value name) (one_operation operation name d)

apply_operations-known :
    (known : List Text) (operations : List DataChangeOperation) (d : Dict Text Value)
    {candidate : Dict Text Value}
    → apply_operations known operations d ≡ ok candidate
    → All (λ operation. contains known operation.property ≡ true) operations
unfolding apply_operations
apply_operations-known known [] d h = tt
apply_operations-known known (operation ∷ rest) d h =
    let (k, h₁) = guard_then (contains known operation.property) _ _ h in
    (k, apply_operations-known known rest _ h₁)

-- Where no two specs have one name, a data change that is accepted names properties of the schema
-- alone, and the new state has under each name of the schema the canonical form of the value that the
-- last operation on it asks for, or of the current value if none is on it, and nothing under any other
-- name.
pub apply_data_change_lem :
    (validate_value : ValidateValue) (current : Dict Text Value)
    (operations : List DataChangeOperation) (specs : List RuntimePropertySpec)
    {canonical : Dict Text Value}
    → distinct (spec_names specs) ≡ true
    → apply_data_change validate_value current operations specs ≡ ok canonical
    → All (λ operation. contains (spec_names specs) operation.property ≡ true) operations
      × All
          (λ spec.
            canonicalize_property validate_value spec
              (requested operations (dict_get spec.name current) spec.name)
            ≡ ok (dict_get spec.name canonical))
          specs
      × ((name : Text) → contains (spec_names specs) name ≡ false → dict_get name canonical ≡ none)
unfolding apply_data_change
apply_data_change_lem validate_value current operations specs {canonical} u h =
    let (candidate, e, k) = bind_ok (apply_operations (spec_names specs) operations current) _ h in
    let (found, others) = canonicalize_properties_lem validate_value candidate specs u k in
    (
      apply_operations-known (spec_names specs) operations current e,
      All-weaken _ _ specs
          (λ spec c.
            subst
              (λ value.
                canonicalize_property validate_value spec value ≡ ok (dict_get spec.name canonical))
              (apply_operations-requested (spec_names specs) operations current e spec.name) c)
          found,
      others,
    )
