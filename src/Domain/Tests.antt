-- ===== src/Domain/Tests.antt =====
-- The domain theorems at concrete inputs.
use netauto.Prelude.{
  ◌≡◌, refl, ◌≢◌, ◌↔◌, Bool, true, false, none, some, List, [], ◌∷◌, arith, Text, Uuid, codes, ℕ_eq,
  list_eq, option_eq, ok, err,
}
use netauto.Prelude.Dict.{Dict, dict_get}
use netauto.Domain.Errors.{out_of_fuel}
use netauto.Domain.DataTypes.{VersionStatus}
use netauto.Domain.ObjectTemplates.{
  scalar, list, validate_local_declarations, LocalProperty, ObjectTemplateVersion, LocalComponent,
  resolve_effective_schema, EffectiveSchema,
}
use netauto.Domain.Lineage.{ParentById, validate_lineage_graph, lineage_is_ancestor}
use netauto.Domain.Relationships.Closure.{
  validate_relationship, RuntimeRelationshipResolution, derive_runtime_closure, Endpoint,
  runtime_row,
}
use netauto.Domain.Relationships.{RelationshipResolution, RelationshipDefinition}
use netauto.Domain.ObjectTemplates.Effective.{
  is_resolvable, effective_schema, resolve_effective_schema_lem,
}
use netauto.Domain.Lineage.Walk.{lineage_is_ancestor_ends, Descends, lineage_is_ancestor_lem}
use netauto.Domain.Lineage.Graph.{lineage_is_ancestor_trans, validated_lineage_answers}
use netauto.Domain.ObjectTemplates.Declarations.{is_well_declared, validate_local_declarations_lem}
use netauto.Domain.Relationships.Closure.Validated.{relationship_of, validate-derive}

-- lineage 1 is the root, 2 its child and 3 the child of 2
abbrev graph : ParentById
graph = (1, none) ∷ (2, some 1) ∷ (3, some 2) ∷ (7, none) ∷ []

abbrev cyclic : ParentById
cyclic = (2, some 3) ∷ (3, some 2) ∷ []

graph_valid : validate_lineage_graph graph ≡ ok tt
unfolding validate_lineage_graph
graph_valid = refl

lineage_is_ancestor_ends_example : lineage_is_ancestor cyclic 9 2 ≢ err out_of_fuel
lineage_is_ancestor_ends_example = lineage_is_ancestor_ends cyclic 9 2

lineage_is_ancestor_lem_example :
    (lineage_is_ancestor graph 1 3 ≡ ok true → Descends graph 1 3)
    × (lineage_is_ancestor graph 1 3 ≡ ok false → Descends graph 1 3 → ⊥)
lineage_is_ancestor_lem_example = lineage_is_ancestor_lem graph 1 3

validated_lineage_answers_example : (b : Bool) × (lineage_is_ancestor graph 1 3 ≡ ok b)
unfolding dict_get
validated_lineage_answers_example = validated_lineage_answers graph 1 3 graph_valid refl

one_above_two : lineage_is_ancestor graph 1 2 ≡ ok true
unfolding lineage_is_ancestor
one_above_two = refl

two_above_three : lineage_is_ancestor graph 2 3 ≡ ok true
unfolding lineage_is_ancestor
two_above_three = refl

lineage_is_ancestor_trans_example : lineage_is_ancestor graph 1 3 ≡ ok true
unfolding dict_get
lineage_is_ancestor_trans_example =
    lineage_is_ancestor_trans graph 1 2 3 graph_valid refl one_above_two two_above_three

abbrev serial : LocalProperty
serial = record {
  name = codes "serial";
  position = 2;
  datatype_id = 40;
  datatype_version = 1;
  value_mode = scalar;
  required = true;
  migration_default = none;
}

abbrev label : LocalProperty
label = record {
  name = codes "label";
  position = 1;
  datatype_id = 41;
  datatype_version = 1;
  value_mode = list;
  required = false;
  migration_default = none;
}

abbrev port : LocalComponent
port = record { name = codes "port"; position = 1; target_template_id = 7 }

abbrev snapshot : Uuid → List LocalProperty → List LocalComponent → ObjectTemplateVersion
snapshot id properties components = record {
  template_id = id;
  version = 1;
  revision = 1;
  status = VersionStatus.published;
  parent_template_id = none;
  parent_version = none;
  properties = properties;
  components = components;
}

abbrev chain : List ObjectTemplateVersion
chain = snapshot 1 (serial ∷ label ∷ []) [] ∷ snapshot 2 [] (port ∷ []) ∷ []

validate_local_declarations_lem_example :
    (validate_local_declarations (serial ∷ label ∷ []) (port ∷ []) ≡ ok tt)
    ↔ (is_well_declared (serial ∷ label ∷ []) (port ∷ []) ≡ true)
validate_local_declarations_lem_example =
    validate_local_declarations_lem (serial ∷ label ∷ []) (port ∷ [])

resolve_effective_schema_lem_example :
    (is_resolvable chain ≡ true
      → resolve_effective_schema 2 1 chain ≡ ok (effective_schema 2 1 chain))
    × ((schema : EffectiveSchema)
        → resolve_effective_schema 2 1 chain ≡ ok schema
        → is_resolvable chain ≡ true)
resolve_effective_schema_lem_example = resolve_effective_schema_lem 2 1 chain

abbrev resolution : Uuid → Uuid → Uuid → Text → RelationshipResolution
resolution id from_template to_template name = record {
  id = id;
  relationship_definition_id = 100;
  from_template_id = from_template;
  to_template_id = to_template;
  name = name;
}

abbrev hosting : RelationshipDefinition
hosting = record {
  id = 100;
  symmetric = false;
  resolutions = resolution 11 1 7 (codes "hosts") ∷ resolution 12 7 1 (codes "runs_on") ∷ [];
  default_version = none;
}

abbrev device : Endpoint
device = record { object_id = 500; template_id = 3 }

abbrev service : Endpoint
service = record { object_id = 400; template_id = 7 }

abbrev templates : Dict Uuid Uuid
templates = (500, 3) ∷ (400, 7) ∷ []

abbrev hosted : List RuntimeRelationshipResolution
hosted = runtime_row 9 100 (11, (500, 400)) ∷ runtime_row 9 100 (12, (400, 500)) ∷ []

hosted_derived : derive_runtime_closure hosting 12 service device graph 9 ≡ ok hosted
unfolding derive_runtime_closure
hosted_derived = refl

validate-derive_example :
    validate_relationship (relationship_of hosting 9 1 [] hosted) hosting graph templates ≡ ok tt
unfolding dict_get
validate-derive_example =
    validate-derive hosting graph templates 12 service device 9 1 [] (omega arith) refl refl
      hosted_derived
