-- ===== src/Persistence/Locking/Classify.antt =====
-- `classify_postgresql_failure` of src/netauto/persistence/locking.py. An error's SQLSTATE and
-- constraint name, read off the driver's exception where there is one, are the arguments.
pub mod Named
use netauto.Prelude.{
  Bool, false, ◌||◌, Option, none, some, List, [], ◌∷◌, if◌then◌else◌, Text, codes, ℕ_eq,
  option_beq, list_eq, option_eq, contains,
}

pub data PostgresqlFailureKind : Type 0 where
  unique_violation foreign_key_violation invariant_violation : PostgresqlFailureKind
  deadlock serialization_failure operational_failure internal_error : PostgresqlFailureKind

pub record ClassifiedPostgresqlFailure : Type 0 where
  pub kind : PostgresqlFailureKind
  pub constraint_name : Option Text

unfoldable pub known_unique_constraints : List Text
known_unique_constraints =
    codes "datatypes_pkey"
    ∷ codes "datatype_versions_pkey"
    ∷ codes "uq_datatypes_namespace_name"
    ∷ codes "object_templates_pkey"
    ∷ codes "object_template_versions_pkey"
    ∷ codes "object_template_properties_pkey"
    ∷ codes "object_template_components_pkey"
    ∷ codes "uq_object_templates_namespace_name"
    ∷ codes "uq_object_template_properties_position"
    ∷ codes "uq_object_template_components_position"
    ∷ codes "relationship_definitions_pkey"
    ∷ codes "relationship_definition_versions_pkey"
    ∷ codes "relationship_definition_properties_pkey"
    ∷ codes "uq_relationship_definition_properties_position"
    ∷ codes "relationship_resolutions_pkey"
    ∷ codes "uq_relationship_resolutions_id_definition"
    ∷ codes "objects_pkey"
    ∷ codes "object_components_pkey"
    ∷ codes "relationships_pkey"
    ∷ codes "uq_relationships_id_definition"
    ∷ codes "runtime_relationship_resolutions_pkey"
    ∷ codes "object_lifecycle_events_pkey"
    ∷ []

unfoldable pub known_foreign_key_constraints : List Text
known_foreign_key_constraints =
    codes "fk_datatype_versions_datatype"
    ∷ codes "fk_datatypes_default_version"
    ∷ codes "fk_object_templates_parent"
    ∷ codes "fk_object_template_versions_template"
    ∷ codes "fk_object_template_versions_parent_version"
    ∷ codes "fk_object_templates_default_version"
    ∷ codes "fk_object_template_properties_version"
    ∷ codes "fk_object_template_properties_datatype_version"
    ∷ codes "fk_object_template_components_version"
    ∷ codes "fk_object_template_components_target"
    ∷ codes "fk_relationship_resolutions_definition"
    ∷ codes "fk_relationship_resolutions_from_template"
    ∷ codes "fk_relationship_resolutions_to_template"
    ∷ codes "fk_relationship_definition_versions_definition"
    ∷ codes "fk_relationship_definitions_default_version"
    ∷ codes "fk_relationship_definition_properties_version"
    ∷ codes "fk_relationship_definition_properties_datatype_version"
    ∷ codes "fk_objects_template_version"
    ∷ codes "fk_object_components_child"
    ∷ codes "fk_object_components_parent"
    ∷ codes "fk_relationships_definition_version"
    ∷ codes "fk_runtime_resolutions_relationship_definition"
    ∷ codes "fk_runtime_resolutions_resolution_definition"
    ∷ codes "fk_runtime_resolutions_from_object"
    ∷ codes "fk_runtime_resolutions_to_object"
    ∷ []

-- `constraint_name in known`
unfoldable pub known_name : List Text → Option Text → Bool
unfolding contains
known_name known none = false
known_name known (some name) = contains known name

-- a failure without a constraint name
abbrev pub unnamed : PostgresqlFailureKind → ClassifiedPostgresqlFailure
unnamed kind = record { kind = kind; constraint_name = none }

-- `sqlstate == state`
abbrev pub in_state : Option Text → Text → Bool
in_state sqlstate code = option_beq sqlstate (some code)

unfoldable pub classify_postgresql_failure : Option Text → Option Text → ClassifiedPostgresqlFailure
unfolding known_name option_beq
classify_postgresql_failure sqlstate constraint_name =
    if in_state sqlstate (codes "23505")
    then (if known_name known_unique_constraints constraint_name
        then record { kind = unique_violation; constraint_name = constraint_name }
        else unnamed internal_error)
    else if in_state sqlstate (codes "23503")
    then (if known_name known_foreign_key_constraints constraint_name
        then record { kind = foreign_key_violation; constraint_name = constraint_name }
        else unnamed internal_error)
    else if in_state sqlstate (codes "23514") || in_state sqlstate (codes "23502")
    then unnamed invariant_violation
    else if in_state sqlstate (codes "40P01")
    then unnamed deadlock
    else if in_state sqlstate (codes "40001")
    then unnamed serialization_failure
    else if in_state sqlstate (codes "55P03") || in_state sqlstate (codes "57014")
    then unnamed operational_failure
    else unnamed internal_error
