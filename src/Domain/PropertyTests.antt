-- ===== src/Domain/PropertyTests.antt =====
-- The theorems on relationship definitions and property values at concrete inputs.
use netauto.Prelude.{
  ℕ, ◌≡◌, refl, true, false, none, some, [], ◌∷◌, arith, Text, Uuid, codes, ℕ_eq, list_beq, list_eq,
  option_eq, All, contains, distinct, ok, err,
}
use netauto.Prelude.Dict.{Dict, dict_get}
use netauto.Domain.Relationships.Renamed.{rename_symmetric_back, AllNamed}
use netauto.Domain.Value.{Value}
use netauto.Domain.Primitives.{PrimitiveType}
use netauto.Domain.Errors.{invalid, primitive, primitive_rule}
use netauto.Domain.ObjectTemplates.{scalar, ValueMode}
use netauto.Domain.DataTypes.{VersionStatus}
use netauto.Domain.Relationships.History.{
  Continues, validate_relationship_property_history-Continues,
}
use netauto.Domain.Relationships.{
  RelationshipDefinitionVersion, validate_relationship_property_history,
}
use netauto.Domain.Lineage.{ParentById, validate_lineage_graph}
use netauto.Domain.Objects.{
  ValidateValue, set, apply_data_change, RuntimePropertySpec, SchemaPropertySpec,
  DataChangeOperation, spec_names, canonicalize_property,
}
use netauto.Domain.Relationships.{
  RelationshipDefinition, validate_definition, RelationshipPerspective, RelationshipResolution,
}
use netauto.Domain.Relationships.Migration.{RelationshipSchemaPropertySpec}
use netauto.Domain.Relationships.Conflicts.{first_conflict}
use netauto.Domain.Identifiers.{is_identifier}
use netauto.Domain.Relationships.Conflicts.Symmetric.{first_conflict_sym}
use netauto.Domain.Relationships.Changes.{rename_symmetric, new_non_symmetric_definition}
use netauto.Domain.Objects.Changed.{requested, apply_data_change_lem}
use netauto.Domain.Objects.Migrated as Moved
use netauto.Domain.Relationships.Migrated as Factual
use netauto.Domain.Relationships.Renamed.{AllNamed, rename_symmetric_back}
use netauto.Domain.Relationships.Constructed.{new_non_symmetric_definition_lem}

abbrev graph : ParentById
graph = (1, none) ∷ (2, some 1) ∷ (7, none) ∷ []

graph_valid : validate_lineage_graph graph ≡ ok tt
unfolding validate_lineage_graph
graph_valid = refl

abbrev self_resolution : Uuid → Uuid → Uuid → Text → RelationshipResolution
self_resolution id definition template name = record {
  id = id;
  relationship_definition_id = definition;
  from_template_id = template;
  to_template_id = template;
  name = name;
}

abbrev peering : RelationshipDefinition
peering = record {
  id = 100;
  symmetric = true;
  resolutions = self_resolution 13 100 1 (codes "peers") ∷ [];
  default_version = some 2;
}

abbrev clustering : RelationshipDefinition
clustering = record {
  id = 101;
  symmetric = true;
  resolutions = self_resolution 14 101 7 (codes "peers") ∷ [];
  default_version = none;
}

peers_apart : first_conflict peering clustering graph ≡ ok none
unfolding first_conflict
peers_apart = refl

first_conflict_sym_example : first_conflict clustering peering graph ≡ ok none
unfolding dict_get
first_conflict_sym_example =
    first_conflict_sym graph graph_valid peering clustering ((refl, refl), tt) ((refl, refl), tt)
      peers_apart

peering_valid : validate_definition peering ≡ ok tt
unfolding validate_definition
peering_valid = refl

rename_symmetric_back_example :
    (changed : RelationshipDefinition) × (rename_symmetric peering (codes "neighbours")
      ≡ ok changed)
    × AllNamed (codes "neighbours") changed.resolutions
    × (rename_symmetric changed (codes "peers") ≡ ok peering)
unfolding is_identifier
rename_symmetric_back_example =
    rename_symmetric_back peering (codes "peers") (codes "neighbours") peering_valid refl (refl, tt)
      refl refl

abbrev hosts : RelationshipPerspective
hosts = record { template_id = 7; name = codes "hosts" }

abbrev runs_on : RelationshipPerspective
runs_on = record { template_id = 1; name = codes "runs_on" }

new_non_symmetric_definition_lem_example :
    (definition : RelationshipDefinition) × (new_non_symmetric_definition 100 11 12 hosts runs_on
      ≡ ok definition)
    × (new_non_symmetric_definition 100 11 12 runs_on hosts ≡ ok definition)
    × (definition.symmetric ≡ false)
unfolding is_identifier list_beq
new_non_symmetric_definition_lem_example =
    new_non_symmetric_definition_lem 100 11 12 hosts runs_on (λ e. omega (arith, e)) refl refl refl

-- rules that know strings alone
abbrev only_text : ValidateValue
only_text base (Value.text t) constraints path = ok (Value.text t)
only_text base _ constraints path =
    err (invalid primitive path (primitive_rule (codes "invalid_string")))

abbrev serial : RuntimePropertySpec
serial = record {
  name = codes "serial";
  value_mode = scalar;
  required = true;
  base_type = PrimitiveType.string;
  constraints = [];
}

abbrev tags : RuntimePropertySpec
tags = record {
  name = codes "tags";
  value_mode = ValueMode.list;
  required = false;
  base_type = PrimitiveType.string;
  constraints = [];
}

abbrev stored : Text → Dict Text Value
stored t = (codes "serial", Value.text t) ∷ []

abbrev to_b2 : DataChangeOperation
to_b2 = record { op = set; property = codes "serial"; value = Value.text (codes "B2") }

changed_serial :
    apply_data_change only_text (stored (codes "A1")) (to_b2 ∷ []) (serial ∷ tags ∷ [])
    ≡ ok (stored (codes "B2"))
unfolding apply_data_change list_beq
changed_serial = refl

apply_data_change_lem_example :
    All
      (λ operation. contains (spec_names (serial ∷ tags ∷ [])) operation.property ≡ true)
      (to_b2 ∷ [])
    × All
        (λ spec.
          canonicalize_property only_text spec
            (requested (to_b2 ∷ []) (dict_get spec.name (stored (codes "A1"))) spec.name)
          ≡ ok (dict_get spec.name (stored (codes "B2"))))
        (serial ∷ tags ∷ [])
    × ((name : Text)
        → contains (spec_names (serial ∷ tags ∷ [])) name ≡ false
        → dict_get name (stored (codes "B2")) ≡ none)
unfolding distinct list_beq
apply_data_change_lem_example =
    apply_data_change_lem only_text (stored (codes "A1")) (to_b2 ∷ []) (serial ∷ tags ∷ []) refl
      changed_serial

abbrev schema_item : RuntimePropertySpec → SchemaPropertySpec
schema_item spec = record { declaring_template_id = 1; runtime = spec; migration_default = none }

abbrev factual_item : ℕ → RuntimePropertySpec → RelationshipSchemaPropertySpec
factual_item place spec = record { position = place; datatype_id = 40; runtime = spec }

abbrev with_property : ℕ → ValueMode → RelationshipDefinitionVersion
with_property version mode = record {
  relationship_definition_id = 100;
  version = version;
  revision = 1;
  status = VersionStatus.published;
  properties =
      record {
        name = codes "vlan";
        position = 1;
        datatype_id = 40;
        datatype_version = version;
        value_mode = mode;
      }
      ∷ [];
}

continued :
    validate_relationship_property_history
      (with_property 2 ValueMode.list)
      (with_property 1 scalar ∷ [])
    ≡ ok tt
unfolding validate_relationship_property_history
continued = refl

validate_relationship_property_history-Continues_example :
    All (λ v. v.relationship_definition_id ≡ 100) (with_property 1 scalar ∷ [])
    × All
        (λ item.
          All (λ v. All (λ old. Continues old item) v.properties) (with_property 1 scalar ∷ []))
        (with_property 2 ValueMode.list).properties
validate_relationship_property_history-Continues_example =
    validate_relationship_property_history-Continues (with_property 2 ValueMode.list)
      (with_property 1 scalar ∷ []) continued
