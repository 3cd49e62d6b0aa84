-- ===== src/Domain/Objects.antt =====
-- src/netauto/domain/objects.py: Objects and the property values that their schema allows. The rules of
-- the primitive types, `validate_value` of src/netauto/domain/primitives.py, are an argument.
pub mod Migration
pub mod Stores
pub mod Lookup
pub mod Changed
pub mod Migrated
use netauto.Prelude.{
  ℕ, suc, Bool, not, ◌&&◌, Option, none, some, List, [], ◌∷◌, ◌++◌, map, leb, if◌then◌else◌, Text,
  Uuid, codes, ℕ_eq, list_eq, option_eq, length, keep, contains, Result, ok, err, ◌>>=◌, ◌>>◌,
  guard,
}
use netauto.Prelude.Dict.{Dict, dict_get, dict_set, dict_pop, keys}
use netauto.Prelude.Sort.{sort_by}
use netauto.Domain.Value.{Value, Items, nil, cons, null}
use netauto.Domain.Primitives.{PrimitiveType}
use netauto.Domain.Errors.{
  position, required, non_empty_list_required, Part, word, object, DomainError, Rule,
  unknown_property, invalid, length_rule, null_forbidden, scalar_required, non_empty_list_required,
  list_required,
}
use netauto.Domain.ObjectTemplates.{ValueMode, scalar}

pub record Object : Type 0 where
  pub id : Uuid
  pub canonical_name : Text
  pub template_id : Uuid
  pub template_version : ℕ
  pub properties : Dict Text Value

pub record ObjectSummary : Type 0 where
  pub id : Uuid
  pub canonical_name : Text
  pub template_id : Uuid
  pub template_version : ℕ

pub record RuntimePropertySpec : Type 0 where
  pub name : Text
  pub value_mode : ValueMode
  pub required : Bool
  pub base_type : PrimitiveType
  pub constraints : Dict Text Value

pub record SchemaPropertySpec : Type 0 where
  pub declaring_template_id : Uuid
  pub runtime : RuntimePropertySpec
  pub migration_default : Option Value

pub record ResolvedComponentSlot : Type 0 where
  pub declaring_template_id : Uuid
  pub name : Text
  pub target_template_id : Uuid

pub data DataChangeKind : Type 0 where
  set remove : DataChangeKind

pub record DataChangeOperation : Type 0 where
  pub op : DataChangeKind
  pub property : Text
  pub value : Value

abbrev pub object_error : List Part → Rule → DomainError
object_error path rule = invalid object path rule

unfoldable pub validate_canonical_name : Text → Result DomainError Text
validate_canonical_name value = do
  guard (leb 1 (length value) && leb (length value) 255)
      (object_error (word (codes "canonical_name") ∷ []) length_rule)
  ok value

abbrev pub property_of : Text → List Part
property_of name = word (codes "properties") ∷ word name ∷ []

-- `validate_value(base_type, value, constraints, path)`
abbrev pub ValidateValue : Type 0
ValidateValue = PrimitiveType → Value → Dict Text Value → List Part → Result DomainError Value

abbrev pub spec_names : List RuntimePropertySpec → List Text
spec_names specs = map (λ spec. spec.name) specs

-- `canonical[spec.name] = ...` where there is a value
abbrev pub store : Text → Option Value → Dict Text Value → Dict Text Value
store name none canonical = canonical
store name (some value) canonical = dict_set name value canonical

-- `set(candidate) - set(by_name)`, sorted
unfoldable pub unknown_names : Dict Text Value → List RuntimePropertySpec → List Text
unfolding keep contains sort_by
unknown_names candidate specs =
    sort_by (λ name. name) (keep (λ name. not (contains (spec_names specs) name)) (keys candidate))

-- the loop on `operations`
unfoldable pub apply_operations :
    List Text → List DataChangeOperation → Dict Text Value → Result DomainError (Dict Text Value)
unfolding contains dict_set dict_pop
apply_operations known [] candidate = ok candidate
apply_operations known (operation ∷ rest) candidate = do
  guard (contains known operation.property)
      (object_error (property_of operation.property) unknown_property)
  apply_operations known rest (elim operation.op [
    | set ↦ dict_set operation.property operation.value candidate
    | remove ↦ dict_pop operation.property candidate
  ])

module _ (validate_value : ValidateValue) where
  -- the list comprehension on the items, from `index` on
  unfoldable pub canonicalize_items : RuntimePropertySpec → ℕ → Items → Result DomainError Items
  canonicalize_items spec index nil = ok nil
  canonicalize_items spec index (cons item rest) = do
    value ←
        validate_value spec.base_type item spec.constraints
          (property_of spec.name ++ position index ∷ [])
    values ← canonicalize_items spec (suc index) rest
    ok (cons value values)

  -- The canonical value of a property that is there; `none` is a `continue`.
  unfoldable pub canonicalize_present :
      RuntimePropertySpec → ValueMode → Value → Result DomainError (Option Value)
  unfolding canonicalize_items
  canonicalize_present spec mode null = err (object_error (property_of spec.name) null_forbidden)
  canonicalize_present spec scalar (Value.list items) =
      err (object_error (property_of spec.name) scalar_required)
  canonicalize_present spec scalar raw = do
    value ← validate_value spec.base_type raw spec.constraints (property_of spec.name)
    ok (some value)
  canonicalize_present spec ValueMode.list (Value.list nil) =
      if spec.required
      then err (object_error (property_of spec.name) non_empty_list_required)
      else ok none
  canonicalize_present spec ValueMode.list (Value.list (cons item rest)) = do
    values ← canonicalize_items spec 0 (cons item rest)
    ok (some (Value.list values))
  canonicalize_present spec ValueMode.list raw =
      err (object_error (property_of spec.name) list_required)

  unfoldable pub canonicalize_property :
      RuntimePropertySpec → Option Value → Result DomainError (Option Value)
  unfolding canonicalize_present
  canonicalize_property spec none =
      if spec.required then err (object_error (property_of spec.name) required) else ok none
  canonicalize_property spec (some raw) = canonicalize_present spec spec.value_mode raw

  -- the loop on `specs`
  unfoldable pub canonicalize_each :
      Dict Text Value
      → List RuntimePropertySpec
      → Dict Text Value
      → Result DomainError (Dict Text Value)
  unfolding dict_get canonicalize_property dict_set
  canonicalize_each candidate [] canonical = ok canonical
  canonicalize_each candidate (spec ∷ rest) canonical = do
    value ← canonicalize_property spec (dict_get spec.name candidate)
    canonicalize_each candidate rest (store spec.name value canonical)

  unfoldable pub canonicalize_properties :
      Dict Text Value → List RuntimePropertySpec → Result DomainError (Dict Text Value)
  unfolding unknown_names canonicalize_each
  canonicalize_properties candidate specs = elim (unknown_names candidate specs) [
    | [] ↦ canonicalize_each candidate specs []
    | name ∷ names ↦ err (object_error (property_of name) unknown_property)
  ]

  unfoldable pub apply_data_change :
      Dict Text Value
      → List DataChangeOperation
      → List RuntimePropertySpec
      → Result DomainError (Dict Text Value)
  unfolding apply_operations canonicalize_properties
  apply_data_change current operations specs = do
    candidate ← apply_operations (spec_names specs) operations current
    canonicalize_properties candidate specs
