-- ===== src/Persistence/Lifecycle/Events.antt =====
-- The rows of `object_lifecycle_events` and how src/netauto/persistence/lifecycle.py reads them. A column
-- without a value is `null` or `none`; the id and the time of a row are what the database gives it. The
-- CHECK constraints of the table stand in Checks.
use netauto.Prelude.{
  ℕ, true, false, Option, none, some, List, [], ◌∷◌, Text, Uuid, codes, ◌==◌, ℕ_eq, list_beq,
  list_eq, option_eq, find, Result, ok, err, ◌>>=◌, ◌>>◌, guard,
}
use netauto.Prelude.Int.{ℤ}
use netauto.Prelude.Dict.{Dict, dict_get}
use netauto.Domain.Value.{Value, null, text, integer, dict}
use netauto.Persistence.Lifecycle.{
  created, rename, data_change, schema_change, attach_to, detach_from, relationship_created,
  relationship_data_change, relationship_schema_change, relationship_deleted, deleted, intrinsic,
  ownership, relationship, is_intrinsic, items_of, decode_historical_properties, is_relationship,
  EventKind, RelationshipFactualState, is_ownership, HistoricalObject, LifecycleEvent,
}

unfoldable pub kind_value : EventKind → Text
kind_value created = codes "CREATED"
kind_value rename = codes "RENAME"
kind_value data_change = codes "DATA_CHANGE"
kind_value schema_change = codes "SCHEMA_CHANGE"
kind_value attach_to = codes "ATTACH_TO"
kind_value detach_from = codes "DETACH_FROM"
kind_value relationship_created = codes "RELATIONSHIP_CREATED"
kind_value relationship_data_change = codes "RELATIONSHIP_DATA_CHANGE"
kind_value relationship_schema_change = codes "RELATIONSHIP_SCHEMA_CHANGE"
kind_value relationship_deleted = codes "RELATIONSHIP_DELETED"
kind_value deleted = codes "DELETED"

abbrev pub all_kinds : List EventKind
all_kinds =
    created ∷ rename ∷ data_change ∷ schema_change ∷ attach_to ∷ detach_from ∷ relationship_created
    ∷ relationship_data_change ∷ relationship_schema_change ∷ relationship_deleted ∷ deleted ∷ []

-- `EventKind(value)`
unfoldable pub parse_kind : Text → Result Text EventKind
unfolding find kind_value list_beq
parse_kind value = elim (find (λ kind. kind_value kind == value) all_kinds) [
  | some kind ↦ ok kind
  | none ↦ err (codes "persisted lifecycle kind is invalid")
]

pub record EventRow : Type 0 where
  pub id : Uuid
  pub occurred_at : ℕ
  pub kind : Text
  pub object_id : Uuid
  pub canonical_name : Text
  pub destination_object_id : Option Uuid
  pub destination_canonical_name : Option Text
  pub slot_declaring_template_id : Option Uuid
  pub slot_name : Option Text
  pub relationship_id : Option Uuid
  pub relationship_definition_id : Option Uuid
  pub relationship_name : Option Text
  pub before_state : Value
  pub after_state : Value

-- a column that must have a value
abbrev pub present {ℓ} : {A : Type ℓ} → Text → Option A → Result Text A
present message none = err message
present message (some a) = ok a

abbrev pub factual_invalid : Text
factual_invalid = codes "persisted Relationship factual state is invalid"

unfoldable pub decode_relationship_factual_state :
    Value → Result Text (Option RelationshipFactualState)
unfolding items_of dict_get list_beq decode_historical_properties
decode_relationship_factual_state null = ok none
decode_relationship_factual_state (dict fields) = do
  version ←
      present factual_invalid (dict_get (codes "relationship_definition_version") (items_of fields))
  properties ← present factual_invalid (dict_get (codes "properties") (items_of fields))
  elim version [
    | integer number ↦ do
      decoded ← decode_historical_properties properties
      ok (some (record { relationship_definition_version = number; properties = decoded }))
    | _ ↦ err factual_invalid
  ]
decode_relationship_factual_state _ = err factual_invalid

abbrev pub snapshot_shape : Text
snapshot_shape = codes "persisted lifecycle snapshot has invalid shape"

abbrev pub snapshot_uuid : Text
snapshot_uuid = codes "persisted lifecycle snapshot UUID is invalid"

-- `isinstance(name, str)` and `isinstance(version, int)`, in one test
unfoldable pub name_and_version : Value → Value → Result Text (Text × ℤ)
name_and_version (text name) (integer version) = ok (name, version)
name_and_version _ _ = err (codes "persisted lifecycle snapshot is invalid")

module _ (parse_uuid : Text → Option Uuid) where
  -- the two UUIDs, both strings before either is parsed
  unfoldable pub both_uuids : Value → Value → Result Text (Uuid × Uuid)
  both_uuids (text first) (text second) = do
    id ← present snapshot_uuid (parse_uuid first)
    template_id ← present snapshot_uuid (parse_uuid second)
    ok (id, template_id)
  both_uuids _ _ = err snapshot_uuid

  unfoldable pub decode_fields_of_object : Dict Text Value → Result Text HistoricalObject
  unfolding dict_get list_beq name_and_version both_uuids decode_historical_properties
  decode_fields_of_object value = do
    raw_id ← present snapshot_shape (dict_get (codes "id") value)
    raw_name ← present snapshot_shape (dict_get (codes "canonical_name") value)
    raw_template ← present snapshot_shape (dict_get (codes "template_id") value)
    raw_version ← present snapshot_shape (dict_get (codes "template_version") value)
    raw_properties ← present snapshot_shape (dict_get (codes "properties") value)
    checked ← name_and_version raw_name raw_version
    ids ← both_uuids raw_id raw_template
    properties ← decode_historical_properties raw_properties
    ok (record {
      id = ids.0;
      canonical_name = checked.0;
      template_id = ids.1;
      template_version = checked.1;
      properties = properties;
    })

  unfoldable pub decode_object_snapshot : Value → Result Text (Option HistoricalObject)
  unfolding items_of decode_fields_of_object
  decode_object_snapshot null = ok none
  decode_object_snapshot (dict fields) = do
    value ← decode_fields_of_object (items_of fields)
    ok (some value)
  decode_object_snapshot _ = err snapshot_shape

  unfoldable pub decode_relationship_event : EventKind → EventRow → Result Text LifecycleEvent
  unfolding decode_relationship_factual_state
  decode_relationship_event kind row = do
    let message : Text = codes "persisted Relationship lifecycle event is incoherent"
    destination_id ← present message row.destination_object_id
    destination_name ← present message row.destination_canonical_name
    relationship_id ← present message row.relationship_id
    definition_id ← present message row.relationship_definition_id
    relationship_name ← present message row.relationship_name
    before ← decode_relationship_factual_state row.before_state
    after ← decode_relationship_factual_state row.after_state
    ok (
        relationship (record {
          id = row.id;
          occurred_at = row.occurred_at;
          kind = kind;
          object_id = row.object_id;
          canonical_name = row.canonical_name;
          destination_object_id = destination_id;
          destination_canonical_name = destination_name;
          relationship_id = relationship_id;
          relationship_definition_id = definition_id;
          relationship_name = relationship_name;
          before = before;
          after = after;
        }))

  unfoldable pub decode_ownership_event : EventKind → EventRow → Result Text LifecycleEvent
  decode_ownership_event kind row = do
    let message : Text = codes "persisted ownership lifecycle event is incoherent"
    destination_id ← present message row.destination_object_id
    destination_name ← present message row.destination_canonical_name
    declaring_id ← present message row.slot_declaring_template_id
    slot_name ← present message row.slot_name
    ok (
        ownership (record {
          id = row.id;
          occurred_at = row.occurred_at;
          kind = kind;
          object_id = row.object_id;
          canonical_name = row.canonical_name;
          destination_object_id = destination_id;
          destination_canonical_name = destination_name;
          slot_declaring_template_id = declaring_id;
          slot_name = slot_name;
        }))

  unfoldable pub decode_intrinsic_event : EventKind → EventRow → Result Text LifecycleEvent
  unfolding is_intrinsic decode_object_snapshot
  decode_intrinsic_event kind row = do
    guard (is_intrinsic kind) (codes "unsupported persisted lifecycle event family")
    before ← decode_object_snapshot row.before_state
    after ← decode_object_snapshot row.after_state
    ok (
        intrinsic (record {
          id = row.id;
          occurred_at = row.occurred_at;
          kind = kind;
          object_id = row.object_id;
          canonical_name = row.canonical_name;
          before = before;
          after = after;
        }))

  -- the event of a row with the kind, by family
  unfoldable pub decode_family : EventKind → EventRow → Result Text LifecycleEvent
  unfolding is_relationship is_ownership decode_relationship_event decode_ownership_event
      decode_intrinsic_event
  decode_family kind row = elim (is_relationship kind) [
    | true ↦ decode_relationship_event kind row
    | false ↦ elim (is_ownership kind) [
      | true ↦ decode_ownership_event kind row
      | false ↦ decode_intrinsic_event kind row
    ]
  ]

  unfoldable pub decode_lifecycle_event : EventRow → Result Text LifecycleEvent
  unfolding parse_kind decode_family
  decode_lifecycle_event row = do kind ← parse_kind row.kind; decode_family kind row
