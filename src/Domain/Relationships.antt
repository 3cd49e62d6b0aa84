-- ===== src/Domain/Relationships.antt =====
-- src/netauto/domain/relationships.py but for the lineage walks: the model plane of
-- RelationshipDefinitions here, its operations and the factual Relationships in the child modules.
-- Positions, versions and revisions are natural numbers.
pub mod Changes
pub mod Constructed
pub mod Accepted
pub mod History
pub mod Renamed
pub mod Conflicts
pub mod Closure
pub mod Views
pub mod Migration
pub mod Migrated
use netauto.Prelude.{
  ℕ, Bool, true, false, not, ◌&&◌, ◌||◌, Option, List, [], ◌∷◌, ◌++◌, map, leb, Text, Uuid, codes,
  ◌==◌, ℕ_eq, list_beq, list_eq, option_eq, any, all, keep, contains, distinct, Result, ok, err,
  ◌>>=◌, ◌>>◌, guard,
}
use netauto.Domain.Errors.{
  non_symmetric_requires_two_resolutions, symmetric_names_must_match, Part, word, Rule, DomainError,
  history_definition_mismatch, duplicate_property_name, positive_required, resource,
  invalid_identifier, invalid, non_symmetric_resolutions_must_be_reciprocal,
  duplicate_resolution_id, property_datatype_lineage_changed,
  single_symmetric_resolution_requires_same_template, relationship_definition,
  symmetric_resolutions_must_be_distinct_reciprocals, definition_membership_mismatch,
  list_to_scalar_forbidden, duplicate_or_invalid_position, non_symmetric_names_must_be_distinct,
  non_symmetric_requires_two_resolutions, symmetric_names_must_match,
  symmetric_requires_one_or_two_resolutions,
}
use netauto.Domain.DataTypes.{VersionStatus}
use netauto.Domain.ObjectTemplates.{ValueMode, scalar, list}
use netauto.Domain.Identifiers.{is_identifier}

pub record RelationshipResolution : Type 0 where
  pub id : Uuid
  pub relationship_definition_id : Uuid
  pub from_template_id : Uuid
  pub to_template_id : Uuid
  pub name : Text

pub record RelationshipDefinition : Type 0 where
  pub id : Uuid
  pub symmetric : Bool
  pub resolutions : List RelationshipResolution
  pub default_version : Option ℕ

pub record RelationshipDefinitionProperty : Type 0 where
  pub name : Text
  pub position : ℕ
  pub datatype_id : Uuid
  pub datatype_version : ℕ
  pub value_mode : ValueMode

pub record RelationshipDefinitionVersion : Type 0 where
  pub relationship_definition_id : Uuid
  pub version : ℕ
  pub revision : ℕ
  pub status : VersionStatus
  pub properties : List RelationshipDefinitionProperty

pub record RelationshipDefinitionVersionSummary : Type 0 where
  pub relationship_definition_id : Uuid
  pub version : ℕ
  pub revision : ℕ
  pub status : VersionStatus

pub record RelationshipPropertyCandidate : Type 0 where
  pub name : Text
  pub position : ℕ
  pub datatype_id : Uuid
  pub datatype_version : Option ℕ
  pub value_mode : ValueMode

pub record CreateRelationshipDefinitionResult : Type 0 where
  pub relationship_definition : RelationshipDefinition
  pub version : RelationshipDefinitionVersion

pub record RelationshipPerspective : Type 0 where
  pub template_id : Uuid
  pub name : Text

pub record ResolutionRename : Type 0 where
  pub resolution_id : Uuid
  pub name : Text

abbrev pub definition_error : List Part → Rule → DomainError
definition_error path rule = invalid relationship_definition path rule

unfoldable pub validate_relationship_name : Text → List Part → Result DomainError (Unit {0})
unfolding is_identifier
validate_relationship_name name path =
    guard (is_identifier name) (definition_error path invalid_identifier)

abbrev pub property_path : Text → Text → List Part
property_path name last = word (codes "properties") ∷ word name ∷ word last ∷ []

-- the loop of `validate_relationship_definition_version`
unfoldable pub check_version_properties :
    List Text → List ℕ → List RelationshipDefinitionProperty → Result DomainError (Unit {0})
unfolding validate_relationship_name contains
check_version_properties names positions [] = ok tt
check_version_properties names positions (item ∷ rest) = do
  validate_relationship_name item.name (property_path item.name (codes "name"))
  guard (not (contains names item.name))
      (definition_error (property_path item.name (codes "name")) duplicate_property_name)
  guard (not (leb item.position 0 || contains positions item.position))
      (definition_error (property_path item.name (codes "position")) duplicate_or_invalid_position)
  guard (not (leb item.datatype_version 0))
      (definition_error (property_path item.name (codes "datatype_version")) positive_required)
  check_version_properties (item.name ∷ names) (item.position ∷ positions) rest

unfoldable pub validate_relationship_definition_version :
    RelationshipDefinitionVersion → Result DomainError (Unit {0})
unfolding check_version_properties
validate_relationship_definition_version value = do
  guard (not (leb value.version 0))
      (definition_error (word (codes "version") ∷ []) positive_required)
  guard (not (leb value.revision 0))
      (definition_error (word (codes "revision") ∷ []) positive_required)
  check_version_properties [] [] value.properties

-- `value_mode is ValueMode.LIST`
abbrev pub is_list : ValueMode → Bool
is_list scalar = false
is_list list = true

-- the properties of the published generations, in order, which `history_by_name` groups by name
unfoldable pub gather_history :
    Uuid
    → List RelationshipDefinitionVersion
    → Result DomainError (List RelationshipDefinitionProperty)
gather_history definition [] = ok []
gather_history definition (version ∷ rest) = do
  guard (version.relationship_definition_id == definition)
      (definition_error (word (codes "properties") ∷ []) history_definition_mismatch)
  later ← gather_history definition rest
  ok (version.properties ++ later)

-- the loop on `candidate.properties`; `previous` is the part of the history with the item's name
unfoldable pub check_history :
    List RelationshipDefinitionProperty
    → List RelationshipDefinitionProperty
    → Result DomainError (Unit {0})
unfolding keep any list_beq
check_history history [] = ok tt
check_history history (item ∷ rest) = do
  let previous : List RelationshipDefinitionProperty =
      keep (λ value. value.name == item.name) history
  guard (not (any (λ value. not (value.datatype_id == item.datatype_id)) previous)) (
      definition_error (property_path item.name (codes "datatype_id"))
        property_datatype_lineage_changed)
  guard (not (any (λ value. is_list value.value_mode && not (is_list item.value_mode)) previous))
      (definition_error (property_path item.name (codes "value_mode")) list_to_scalar_forbidden)
  check_history history rest

unfoldable pub validate_relationship_property_history :
    RelationshipDefinitionVersion
    → List RelationshipDefinitionVersion
    → Result DomainError (Unit {0})
unfolding validate_relationship_definition_version gather_history check_history
validate_relationship_property_history candidate published_history = do
  validate_relationship_definition_version candidate
  history ← gather_history candidate.relationship_definition_id published_history
  check_history history candidate.properties

abbrev pub resolution_ids : List RelationshipResolution → List Uuid
resolution_ids items = map (λ item. item.id) items

unfoldable pub check_resolution_names : List RelationshipResolution → Result DomainError (Unit {0})
unfolding validate_relationship_name
check_resolution_names [] = ok tt
check_resolution_names (item ∷ rest) = do
  validate_relationship_name item.name
      (word (codes "resolutions") ∷ resource item.id ∷ word (codes "name") ∷ [])
  check_resolution_names rest

abbrev pub resolutions_error : Rule → DomainError
resolutions_error rule = definition_error (word (codes "resolutions") ∷ []) rule

abbrev pub are_reciprocal : RelationshipResolution → RelationshipResolution → Bool
are_reciprocal first second =
    first.from_template_id == second.to_template_id
    && first.to_template_id == second.from_template_id

-- what `validate_definition` asks of the resolutions of a definition that is not symmetric
unfoldable pub check_non_symmetric : List RelationshipResolution → Result DomainError (Unit {0})
unfolding list_beq
check_non_symmetric (first ∷ second ∷ []) = do
  guard (are_reciprocal first second)
      (resolutions_error non_symmetric_resolutions_must_be_reciprocal)
  guard (not (first.name == second.name)) (resolutions_error non_symmetric_names_must_be_distinct)
check_non_symmetric _ = err (resolutions_error non_symmetric_requires_two_resolutions)

unfoldable pub check_symmetric : List RelationshipResolution → Result DomainError (Unit {0})
unfolding list_beq
check_symmetric (only ∷ []) =
    guard (only.from_template_id == only.to_template_id)
      (resolutions_error single_symmetric_resolution_requires_same_template)
check_symmetric (first ∷ second ∷ []) = do
  guard (not (first.from_template_id == first.to_template_id) && are_reciprocal first second)
      (resolutions_error symmetric_resolutions_must_be_distinct_reciprocals)
  guard (first.name == second.name) (resolutions_error symmetric_names_must_match)
check_symmetric _ = err (resolutions_error symmetric_requires_one_or_two_resolutions)

unfoldable pub validate_definition : RelationshipDefinition → Result DomainError (Unit {0})
unfolding distinct all check_resolution_names check_symmetric check_non_symmetric
validate_definition value = do
  guard (distinct (resolution_ids value.resolutions)) (resolutions_error duplicate_resolution_id)
  guard (all (λ item. item.relationship_definition_id == value.id) value.resolutions)
      (resolutions_error definition_membership_mismatch)
  check_resolution_names value.resolutions
  elim value.symmetric [
    | true ↦ check_symmetric value.resolutions
    | false ↦ check_non_symmetric value.resolutions
  ]
