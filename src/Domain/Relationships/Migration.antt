-- ===== src/Domain/Relationships/Migration.antt =====
-- `migrate_relationship_properties` of src/netauto/domain/relationships.py.
use netauto.Prelude.{
  ℕ, not, ◌&&◌, Option, none, some, List, [], ◌∷◌, map, Text, Uuid, ◌==◌, ℕ_eq, list_beq, list_eq,
  option_eq, find, Result, ok, ◌>>=◌, ◌>>◌, guard,
}
use mathlib.Core.List.{reverse}
use netauto.Prelude.Dict.{Dict, dict_get}
use netauto.Prelude.Sort.{sort_by}
use netauto.Domain.Value.{Value}
use netauto.Domain.Errors.{
  DomainError, invalid, relationship, list_to_scalar_forbidden, property_datatype_lineage_changed,
}
use netauto.Domain.Objects.{
  ValidateValue, RuntimePropertySpec, canonicalize_properties, property_of,
}
use netauto.Domain.Objects.Migration.{Carrying, carry, convert, block_carried, nothing_carried}
use netauto.Domain.Relationships.{is_list}

pub record RelationshipSchemaPropertySpec : Type 0 where
  pub position : ℕ
  pub datatype_id : Uuid
  pub runtime : RuntimePropertySpec

-- The item that the source has for a name; of two with one name `source_by_name` holds the later.
unfoldable pub source_named :
    List RelationshipSchemaPropertySpec → Text → Option RelationshipSchemaPropertySpec
unfolding find list_beq
source_named source name = find (λ item. item.runtime.name == name) (reverse source)

-- what the loop asks of a target item and its source item
unfoldable pub check_lineage_and_mode :
    RelationshipSchemaPropertySpec → RelationshipSchemaPropertySpec → Result DomainError (Unit {0})
check_lineage_and_mode source target = do
  guard (source.datatype_id == target.datatype_id)
      (invalid relationship (property_of target.runtime.name) property_datatype_lineage_changed)
  guard (not (is_list source.runtime.value_mode && not (is_list target.runtime.value_mode)))
      (invalid relationship (property_of target.runtime.name) list_to_scalar_forbidden)

-- the loop on the target items, by position
unfoldable pub carry_relationship_properties :
    Dict Text Value
    → List RelationshipSchemaPropertySpec
    → List RelationshipSchemaPropertySpec
    → Carrying
    → Result DomainError Carrying
unfolding source_named check_lineage_and_mode convert dict_get
carry_relationship_properties current source [] c = ok c
carry_relationship_properties current source (target ∷ rest) c =
    elim (source_named source target.runtime.name) [
      | none ↦ carry_relationship_properties current source rest c
      | some item ↦ do
        check_lineage_and_mode item target
        elim (dict_get target.runtime.name current) [
          | none ↦ carry_relationship_properties current source rest c
          | some raw ↦ do
            value ←
                convert target.runtime.name item.runtime.value_mode target.runtime.value_mode raw
            carry_relationship_properties current source rest (carry target.runtime.name value c)
        ]
    ]

module _ (validate_value : ValidateValue) where
  unfoldable pub migrate_relationship_properties :
      Dict Text Value
      → List RelationshipSchemaPropertySpec
      → List RelationshipSchemaPropertySpec
      → Result DomainError (Dict Text Value)
  unfolding carry_relationship_properties canonicalize_properties block_carried sort_by
  migrate_relationship_properties current source target = do
    c ←
        carry_relationship_properties current source (sort_by (λ item. item.position ∷ []) target)
          nothing_carried
    block_carried c.carried_names
        (canonicalize_properties validate_value c.candidate (map (λ item. item.runtime) target))
