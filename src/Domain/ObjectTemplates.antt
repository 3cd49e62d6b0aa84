-- ===== src/Domain/ObjectTemplates.antt =====
-- src/netauto/domain/objecttemplates.py. Positions, versions and revisions are natural numbers: a
-- negative position is refused by the code as 0 is.
pub mod Declarations
pub mod Effective
use netauto.Prelude.{
  ℕ, Bool, not, ◌||◌, Option, List, [], ◌∷◌, ◌++◌, map, leb, Text, Uuid, codes, ℕ_eq, list_eq,
  option_eq, contains, Result, ok, ◌>>=◌, ◌>>◌, guard,
}
use netauto.Prelude.Sort.{sort_by}
use netauto.Domain.Value.{Value}
use netauto.Domain.Errors.{
  object_template, Part, word, DomainError, Rule, inherited_member_collision, inheritance_cycle,
  duplicate_or_invalid_position, invalid, invalid_identifier, duplicate_member_name,
}
use netauto.Domain.DataTypes.{VersionStatus}
use netauto.Domain.Identifiers.{is_identifier}

pub data ValueMode : Type 0 where
  scalar list : ValueMode

pub record ObjectTemplate : Type 0 where
  pub id : Uuid
  pub namespace : Text
  pub name : Text
  pub description : Option Text
  pub is_abstract : Bool
  pub parent_template_id : Option Uuid
  pub default_version : Option ℕ

pub record LocalProperty : Type 0 where
  pub name : Text
  pub position : ℕ
  pub datatype_id : Uuid
  pub datatype_version : ℕ
  pub value_mode : ValueMode
  pub required : Bool
  pub migration_default : Option Value

pub record LocalComponent : Type 0 where
  pub name : Text
  pub position : ℕ
  pub target_template_id : Uuid

pub record ObjectTemplateVersion : Type 0 where
  pub template_id : Uuid
  pub version : ℕ
  pub revision : ℕ
  pub status : VersionStatus
  pub parent_template_id : Option Uuid
  pub parent_version : Option ℕ
  pub properties : List LocalProperty
  pub components : List LocalComponent

pub record ObjectTemplateVersionSummary : Type 0 where
  pub template_id : Uuid
  pub version : ℕ
  pub revision : ℕ
  pub status : VersionStatus
  pub parent_template_id : Option Uuid
  pub parent_version : Option ℕ

pub record EffectiveProperty : Type 0 where
  pub declaring_template_id : Uuid
  pub declaration : LocalProperty

pub record EffectiveComponent : Type 0 where
  pub declaring_template_id : Uuid
  pub declaration : LocalComponent

pub record EffectiveSchema : Type 0 where
  pub template_id : Uuid
  pub version : ℕ
  pub properties : List EffectiveProperty
  pub components : List EffectiveComponent

pub record CreateObjectTemplateResult : Type 0 where
  pub object_template : ObjectTemplate
  pub version : ObjectTemplateVersion

-- `f"{family}.{name}.{last}"`
abbrev pub member_path : Text → Text → Text → List Part
member_path family name last = word family ∷ word name ∷ word last ∷ []

abbrev pub template_error : List Part → Rule → DomainError
template_error path rule = invalid object_template path rule

unfoldable pub validate_member_name : Text → List Part → Result DomainError (Unit {0})
unfolding is_identifier
validate_member_name name path = guard (is_identifier name) (template_error path invalid_identifier)

-- the loop on `properties` of `validate_local_declarations`
unfoldable pub check_properties :
    List Text → List ℕ → List LocalProperty → Result DomainError (Unit {0})
unfolding validate_member_name contains
check_properties names positions [] = ok tt
check_properties names positions (item ∷ rest) = do
  validate_member_name item.name (member_path (codes "properties") item.name (codes "name"))
  guard (not (leb item.position 0 || contains positions item.position)) (
      template_error (member_path (codes "properties") item.name (codes "position"))
        duplicate_or_invalid_position)
  guard (not (contains names item.name)) (
      template_error (member_path (codes "properties") item.name (codes "name"))
        duplicate_member_name)
  check_properties (item.name ∷ names) (item.position ∷ positions) rest

-- the loop on `components`
unfoldable pub check_components :
    List Text → List Text → List ℕ → List LocalComponent → Result DomainError (Unit {0})
unfolding validate_member_name contains
check_components property_names names positions [] = ok tt
check_components property_names names positions (item ∷ rest) = do
  validate_member_name item.name (member_path (codes "components") item.name (codes "name"))
  guard (not (leb item.position 0 || contains positions item.position)) (
      template_error (member_path (codes "components") item.name (codes "position"))
        duplicate_or_invalid_position)
  guard (not (contains names item.name || contains property_names item.name)) (
      template_error (member_path (codes "components") item.name (codes "name"))
        duplicate_member_name)
  check_components property_names (item.name ∷ names) (item.position ∷ positions) rest

abbrev pub property_names : List LocalProperty → List Text
property_names items = map (λ item. item.name) items

abbrev pub component_names : List LocalComponent → List Text
component_names items = map (λ item. item.name) items

unfoldable pub validate_local_declarations :
    List LocalProperty → List LocalComponent → Result DomainError (Unit {0})
unfolding check_properties check_components
validate_local_declarations properties components = do
  check_properties [] [] properties
  check_components (property_names properties) [] [] components

-- What the loop on the snapshots has gathered.
pub record Resolving : Type 0 where
  pub seen_members : List Text
  pub properties : List EffectiveProperty
  pub components : List EffectiveComponent

unfoldable pub add_properties : Uuid → List LocalProperty → Resolving → Result DomainError Resolving
unfolding contains
add_properties template [] r = ok r
add_properties template (item ∷ rest) r = do
  guard (not (contains r.seen_members item.name))
      (template_error (word (codes "properties") ∷ word item.name ∷ []) inherited_member_collision)
  add_properties template rest (record {
    seen_members = item.name ∷ r.seen_members;
    properties =
        r.properties ++ record { declaring_template_id = template; declaration = item } ∷ [];
    components = r.components;
  })

unfoldable pub add_components :
    Uuid → List LocalComponent → Resolving → Result DomainError Resolving
unfolding contains
add_components template [] r = ok r
add_components template (item ∷ rest) r = do
  guard (not (contains r.seen_members item.name))
      (template_error (word (codes "components") ∷ word item.name ∷ []) inherited_member_collision)
  add_components template rest (record {
    seen_members = item.name ∷ r.seen_members;
    properties = r.properties;
    components =
        r.components ++ record { declaring_template_id = template; declaration = item } ∷ [];
  })

abbrev pub sorted_properties : List LocalProperty → List LocalProperty
sorted_properties items = sort_by (λ item. item.position ∷ []) items

abbrev pub sorted_components : List LocalComponent → List LocalComponent
sorted_components items = sort_by (λ item. item.position ∷ []) items

-- the loop on `root_to_leaf`, with `seen_templates`
unfoldable pub add_snapshots :
    List Uuid → List ObjectTemplateVersion → Resolving → Result DomainError Resolving
unfolding contains validate_local_declarations add_properties add_components sort_by
add_snapshots seen [] r = ok r
add_snapshots seen (snapshot ∷ rest) r = do
  guard (not (contains seen snapshot.template_id))
      (template_error (word (codes "inheritance") ∷ []) inheritance_cycle)
  validate_local_declarations snapshot.properties snapshot.components
  with_properties ← add_properties snapshot.template_id (sorted_properties snapshot.properties) r
  with_components ←
      add_components snapshot.template_id (sorted_components snapshot.components) with_properties
  add_snapshots (snapshot.template_id ∷ seen) rest with_components

unfoldable pub resolve_effective_schema :
    Uuid → ℕ → List ObjectTemplateVersion → Result DomainError EffectiveSchema
unfolding add_snapshots
resolve_effective_schema template_id version root_to_leaf = do
  r ← add_snapshots [] root_to_leaf (record { seen_members = []; properties = []; components = [] })
  ok (record {
    template_id = template_id;
    version = version;
    properties = r.properties;
    components = r.components;
  })
