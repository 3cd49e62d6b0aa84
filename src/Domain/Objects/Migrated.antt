-- ===== src/Domain/Objects/Migrated.antt =====
-- The state after a schema migration, `migrate_properties` of src/netauto/domain/objects.py.
use netauto.Prelude.{
  ◌≡◌, inl, inr, true, false, Option, none, some, List, map, Bool-cases, Text, ℕ_eq, list_eq,
  option_eq, contains, Result, ok, err, ◌>>=◌,
}
use netauto.Prelude.Dict.{Dict}
use netauto.Domain.Value.{Value}
use netauto.Domain.Objects.Migration.{convert}
use netauto.Domain.Objects.{SchemaPropertySpec, object_error, property_of}
use netauto.Domain.Objects.Stores.{Stores}
use netauto.Domain.Objects.Migration.{block_carried, error_name, source_value, convert}
use netauto.Domain.Errors.{DomainError, missing_migration_default}

pub block_carried-ok :
    (carried : List Text) (r : Result DomainError (Dict Text Value)) {canonical : Dict Text Value}
    → block_carried carried r ≡ ok canonical
    → r ≡ ok canonical
unfolding block_carried
block_carried-ok carried (ok d) h = h
block_carried-ok carried (err e) h = elim (Bool-cases (contains carried (error_name e))) [
  | inl t ↦ absurd (cc (rw t at h))
  | inr f ↦ absurd (cc (rw f at h))
]

abbrev pub target_names : List SchemaPropertySpec → List Text
target_names target = map (λ item. item.runtime.name) target

-- What a migration takes for a property of the target: the value of the property that the same template
-- declares under the same name in the source, in the mode of the target; where there is none, nothing
-- for a property that is not required, and the default for one that is.
abbrev pub moved :
    Dict Text Value
    → List SchemaPropertySpec
    → SchemaPropertySpec
    → Result DomainError (Option Value)
moved current source target = elim (source_value current source target) [
  | some (item, raw) ↦ do
    value ← convert target.runtime.name item.runtime.value_mode target.runtime.value_mode raw
    ok (some value)
  | none ↦ elim target.runtime.required [
    | false ↦ ok none
    | true ↦ elim target.migration_default [
      | none ↦ err (object_error (property_of target.runtime.name) missing_migration_default)
      | some default ↦ ok (some default)
    ]
  ]
]
