-- ===== src/Domain/Errors.antt =====
-- The validation errors of src/netauto/domain/relationships.py, objecttemplates.py and objects.py. The
-- path of an error is the list of the parts that dots join in the source.
use netauto.Prelude.{ℕ, List, Text, Uuid}

pub data Part : Type 0 where
  word : Text → Part
  resource : Uuid → Part
  position : ℕ → Part

-- the exception class
pub data ErrorKind : Type 0 where
  relationship_definition relationship object_template object primitive : ErrorKind

-- the `rule` of the error
pub data Rule : Type 0 where
  invalid_identifier positive_required duplicate_property_name duplicate_or_invalid_position : Rule
  history_definition_mismatch property_datatype_lineage_changed list_to_scalar_forbidden : Rule
  duplicate_resolution_id definition_membership_mismatch : Rule
  non_symmetric_requires_two_resolutions non_symmetric_resolutions_must_be_reciprocal : Rule
  non_symmetric_names_must_be_distinct single_symmetric_resolution_requires_same_template : Rule
  symmetric_requires_one_or_two_resolutions : Rule
  symmetric_resolutions_must_be_distinct_reciprocals symmetric_names_must_match : Rule
  rename_shape_does_not_match_symmetric_definition : Rule
  rename_shape_does_not_match_non_symmetric_definition : Rule
  rename_must_cover_complete_resolution_set : Rule
  persisted_inheritance_cycle persisted_lineage_dependency_missing : Rule
  resolution_not_in_definition incompatible_template_lineage : Rule
  incomplete_closure aggregate_mismatch missing_endpoint_object : Rule
  duplicate_member_name inheritance_cycle inherited_member_collision : Rule
  length_rule unknown_property required null_forbidden scalar_required list_required : Rule
  non_empty_list_required missing_migration_default : Rule
  primitive_rule : Text → Rule

pub data DomainError : Type 0 where
  invalid : ErrorKind → List Part → Rule → DomainError
  -- `SchemaChangeBlocked` and `RelationshipSchemaChangeBlocked`
  schema_change_blocked : Text → DomainError
  out_of_fuel : DomainError
