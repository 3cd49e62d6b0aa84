-- ===== src/Domain/Objects/Migration.antt =====
-- `migrate_properties` of src/netauto/domain/objects.py. A property name is an identifier, so it holds
-- no dot, and the name in an error's path is its second part.
use netauto.Prelude.{
  true, false, ◌&&◌, Option, none, some, List, [], ◌∷◌, map, if◌then◌else◌, Text, codes, ◌==◌, ℕ_eq,
  list_beq, list_eq, option_eq, find, contains, Result, ok, err, ◌>>=◌,
}
use mathlib.Core.List.{reverse}
use netauto.Prelude.Dict.{Dict, dict_get, dict_set}
use netauto.Domain.Value.{Value, nil, cons}
use netauto.Domain.Errors.{
  DomainError, invalid, word, schema_change_blocked, out_of_fuel, missing_migration_default, Part,
}
use netauto.Domain.ObjectTemplates.{ValueMode, scalar, list}
use netauto.Domain.Objects.{
  ValidateValue, SchemaPropertySpec, canonicalize_properties, object_error, property_of,
}

-- the candidate and the names of the values that it carries over
pub record Carrying : Type 0 where
  pub candidate : Dict Text Value
  pub carried_names : List Text

abbrev pub nothing_carried : Carrying
nothing_carried = record { candidate = []; carried_names = [] }

-- `candidate[name] = value`, and the name is carried
abbrev pub carry : Text → Value → Carrying → Carrying
carry name value c = record {
  candidate = dict_set name value c.candidate;
  carried_names = name ∷ c.carried_names;
}

-- a value of one mode as a value of the other
unfoldable pub convert : Text → ValueMode → ValueMode → Value → Result DomainError Value
convert name scalar list value = ok (Value.list (cons value nil))
convert name list scalar value = err (schema_change_blocked name)
convert name scalar scalar value = ok value
convert name list list value = ok value

-- The source item with the key of the target item, and its value; of two items with one key
-- `source_by_key` holds the later.
unfoldable pub source_value :
    Dict Text Value
    → List SchemaPropertySpec
    → SchemaPropertySpec
    → Option (SchemaPropertySpec × Value)
unfolding find list_beq dict_get
source_value current source target =
    elim (find
      (λ item.
        item.declaring_template_id == target.declaring_template_id
        && item.runtime.name == target.runtime.name)
      (reverse source)) [
        | none ↦ none
        | some item ↦ elim (dict_get item.runtime.name current) [
          | none ↦ none
          | some value ↦ some (item, value)
        ]
      ]

-- the loop on `target`
unfoldable pub carry_properties :
    Dict Text Value
    → List SchemaPropertySpec
    → List SchemaPropertySpec
    → Carrying
    → Result DomainError Carrying
unfolding source_value convert dict_set
carry_properties current source [] c = ok c
carry_properties current source (target ∷ rest) c = elim (source_value current source target) [
  | some (item, raw) ↦ do
    value ← convert target.runtime.name item.runtime.value_mode target.runtime.value_mode raw
    carry_properties current source rest (carry target.runtime.name value c)
  | none ↦ elim target.runtime.required [
    | false ↦ carry_properties current source rest c
    | true ↦ elim target.migration_default [
      | none ↦ err (object_error (property_of target.runtime.name) missing_migration_default)
      | some default ↦ carry_properties current source rest (record {
        candidate = dict_set target.runtime.name default c.candidate;
        carried_names = c.carried_names;
      })
    ]
  ]
]

-- the property that an error's `path` names, `path.removeprefix("properties.").split(".")[0]`
unfoldable pub path_name : List Part → Text
unfolding list_beq
path_name (word first ∷ word name ∷ _) = if first == codes "properties" then name else first
path_name (word first ∷ _) = first
path_name _ = []

unfoldable pub error_name : DomainError → Text
unfolding path_name
error_name (invalid kind path rule) = path_name path
error_name (schema_change_blocked name) = []
error_name out_of_fuel = []

-- the `except` of the migrations
unfoldable pub block_carried :
    List Text → Result DomainError (Dict Text Value) → Result DomainError (Dict Text Value)
unfolding error_name contains
block_carried carried (ok canonical) = ok canonical
block_carried carried (err error) =
    if contains carried (error_name error)
    then err (schema_change_blocked (error_name error))
    else err error

module _ (validate_value : ValidateValue) where
  unfoldable pub migrate_properties :
      Dict Text Value
      → List SchemaPropertySpec
      → List SchemaPropertySpec
      → Result DomainError (Dict Text Value)
  unfolding carry_properties canonicalize_properties block_carried
  migrate_properties current source target = do
    c ← carry_properties current source target nothing_carried
    block_carried c.carried_names
        (canonicalize_properties validate_value c.candidate (map (λ item. item.runtime) target))
