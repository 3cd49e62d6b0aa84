-- ===== src/Persistence/Lifecycle.antt =====
-- The lifecycle events of src/netauto/persistence/lifecycle.py: their kinds, their records, and the
-- JSON of the states that they keep. Python's `str(uuid)` and `UUID(text)` are arguments; an error is
-- the text of its message. JSON carries a version as an integer of either sign.
pub mod Snapshot
pub mod Events
pub mod Checks
pub mod Inserts
pub mod Recorded
pub mod Transitions
pub mod Kept
mod Tests
use netauto.Prelude.{
  ℕ, Bool, true, false, Option, [], ◌∷◌, Text, Uuid, codes, Result, ok, err, ◌>>=◌, ◌>>◌,
}
use netauto.Prelude.Int.{ℤ, pos}
use netauto.Prelude.Dict.{Dict, dict_get}
use netauto.Domain.Value.{
  Value, Items, nil, cons, Fields, end, field, null, other, odd_dict, boolean, integer, text, list,
  dict,
}
use netauto.Domain.Objects.{Object}

pub data EventKind : Type 0 where
  created rename data_change schema_change attach_to detach_from : EventKind
  relationship_created relationship_data_change relationship_schema_change : EventKind
  relationship_deleted deleted : EventKind

unfoldable pub is_intrinsic : EventKind → Bool
is_intrinsic created = true
is_intrinsic rename = true
is_intrinsic data_change = true
is_intrinsic schema_change = true
is_intrinsic deleted = true
is_intrinsic _ = false

unfoldable pub is_relationship : EventKind → Bool
is_relationship relationship_created = true
is_relationship relationship_data_change = true
is_relationship relationship_schema_change = true
is_relationship relationship_deleted = true
is_relationship _ = false

unfoldable pub is_ownership : EventKind → Bool
is_ownership attach_to = true
is_ownership detach_from = true
is_ownership _ = false

-- an Object as its JSON carries it
pub record HistoricalObject : Type 0 where
  pub id : Uuid
  pub canonical_name : Text
  pub template_id : Uuid
  pub template_version : ℤ
  pub properties : Dict Text Value

pub record RelationshipFactualState : Type 0 where
  pub relationship_definition_version : ℤ
  pub properties : Dict Text Value

pub record IntrinsicLifecycleEvent : Type 0 where
  pub id : Uuid
  pub occurred_at : ℕ
  pub kind : EventKind
  pub object_id : Uuid
  pub canonical_name : Text
  pub before : Option HistoricalObject
  pub after : Option HistoricalObject

pub record OwnershipLifecycleEvent : Type 0 where
  pub id : Uuid
  pub occurred_at : ℕ
  pub kind : EventKind
  pub object_id : Uuid
  pub canonical_name : Text
  pub destination_object_id : Uuid
  pub destination_canonical_name : Text
  pub slot_declaring_template_id : Uuid
  pub slot_name : Text

pub record RelationshipLifecycleEvent : Type 0 where
  pub id : Uuid
  pub occurred_at : ℕ
  pub kind : EventKind
  pub object_id : Uuid
  pub canonical_name : Text
  pub destination_object_id : Uuid
  pub destination_canonical_name : Text
  pub relationship_id : Uuid
  pub relationship_definition_id : Uuid
  pub relationship_name : Text
  pub before : Option RelationshipFactualState
  pub after : Option RelationshipFactualState

pub data LifecycleEvent : Type 0 where
  intrinsic : IntrinsicLifecycleEvent → LifecycleEvent
  ownership : OwnershipLifecycleEvent → LifecycleEvent
  relationship : RelationshipLifecycleEvent → LifecycleEvent

-- the dict with the items
unfoldable pub fields_of : Dict Text Value → Fields
fields_of [] = end
fields_of ((name, value) ∷ rest) = field name value (fields_of rest)

unfoldable pub items_of : Fields → Dict Text Value
items_of end = []
items_of (field name value rest) = (name, value) ∷ items_of rest

unfoldable mutual
  -- `_decode_historical_json_value`
  pub decode_value : Value → Result Text Value
  decode_value null = ok null
  decode_value (text t) = ok (text t)
  decode_value (boolean b) = ok (boolean b)
  decode_value (integer i) = ok (integer i)
  decode_value (list items) = do decoded ← decode_items items; ok (list decoded)
  decode_value (dict fields) = do decoded ← decode_fields fields; ok (dict decoded)
  decode_value odd_dict = err (codes "persisted lifecycle JSON object key is invalid")
  decode_value other = err (codes "persisted lifecycle JSON carrier is invalid")

  pub decode_items : Items → Result Text Items
  decode_items nil = ok nil
  decode_items (cons item rest) = do
    value ← decode_value item
    values ← decode_items rest
    ok (cons value values)

  pub decode_fields : Fields → Result Text Fields
  decode_fields end = ok end
  decode_fields (field name value rest) = do
    decoded ← decode_value value
    fields ← decode_fields rest
    ok (field name decoded fields)

unfoldable pub properties_of : Value → Result Text (Dict Text Value)
unfolding items_of
properties_of (dict fields) = ok (items_of fields)
properties_of _ = err (codes "persisted lifecycle properties are invalid")

unfoldable pub decode_historical_properties : Value → Result Text (Dict Text Value)
unfolding decode_value properties_of
decode_historical_properties raw = do decoded ← decode_value raw; properties_of decoded

module _ (uuid_text : Uuid → Text) where
  unfoldable pub object_snapshot : Object → Value
  unfolding fields_of
  object_snapshot value = dict (
      field (codes "id") (text (uuid_text value.id)) (
        field (codes "canonical_name") (text value.canonical_name) (
          field (codes "template_id") (text (uuid_text value.template_id)) (
            field (codes "template_version") (integer (pos value.template_version))
              (field (codes "properties") (dict (fields_of value.properties)) end)))))
