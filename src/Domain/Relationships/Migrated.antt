-- ===== src/Domain/Relationships/Migrated.antt =====
-- The state after a schema migration of a Relationship, `migrate_relationship_properties` of
-- src/netauto/domain/relationships.py.
use netauto.Prelude.{
  Option, none, some, List, [], ◌∷◌, map, Text, ℕ_eq, list_eq, option_eq, Result, ok, ◌>>=◌, ◌>>◌,
}
use netauto.Prelude.Dict.{Dict, dict_get}
use netauto.Prelude.Sort.{sort_by}
use netauto.Domain.Value.{Value}
use netauto.Domain.Errors.{DomainError}
use netauto.Domain.Objects.Stores.{Stores}
use netauto.Domain.Objects.Migration.{convert}
use netauto.Domain.Relationships.Migration.{
  RelationshipSchemaPropertySpec, source_named, check_lineage_and_mode,
}

abbrev pub item_names : List RelationshipSchemaPropertySpec → List Text
item_names target = map (λ item. item.runtime.name) target

module _ (current : Dict Text Value) (source : List RelationshipSchemaPropertySpec) where
  -- What a migration takes for a property of the target: the current value under its name, if the
  -- source has a property of that name, which must be of one lineage of DataTypes and no list that
  -- becomes a scalar; in the mode of the target.
  abbrev pub moved : RelationshipSchemaPropertySpec → Result DomainError (Option Value)
  moved target = elim (source_named source target.runtime.name) [
    | none ↦ ok none
    | some item ↦ do
      check_lineage_and_mode item target
      elim (dict_get target.runtime.name current) [
        | none ↦ ok none
        | some raw ↦ do
          value ← convert target.runtime.name item.runtime.value_mode target.runtime.value_mode raw
          ok (some value)
      ]
  ]

abbrev by_position : List RelationshipSchemaPropertySpec → List RelationshipSchemaPropertySpec
by_position target = sort_by (λ item. item.position ∷ []) target
