-- ===== src/Persistence/Lifecycle/Inserts.antt =====
-- The inserts of intrinsic and of ownership events, src/netauto/persistence/lifecycle.py: a row that the
-- table refuses raises, and a row that it takes is read back.
use netauto.Prelude.{
  ℕ, Option, none, some, List, [], ◌∷◌, ◌++◌, Text, Uuid, codes, Result, ok, err, ◌>>=◌, ◌>>◌,
  guard,
}
use netauto.Domain.Value.{Value, null}
use netauto.Domain.Objects.{Object}
use netauto.Persistence.Lifecycle.{
  intrinsic, ownership, is_ownership, EventKind, IntrinsicLifecycleEvent, object_snapshot,
  OwnershipLifecycleEvent,
}
use netauto.Persistence.Lifecycle.Events.{kind_value, EventRow, decode_lifecycle_event}
use netauto.Persistence.Lifecycle.Checks.{row_admitted, check_violation}

module _ (uuid_text : Uuid → Text) (parse_uuid : Text → Option Uuid) where
  abbrev pub state_json : Option Object → Value
  state_json none = null
  state_json (some value) = object_snapshot uuid_text value

  -- The row that `insert_intrinsic_event` inserts and gets back; `id` and `now` are the database's.
  unfoldable pub intrinsic_row :
      Uuid → ℕ → EventKind → Object → Option Object → Option Object → EventRow
  unfolding kind_value object_snapshot
  intrinsic_row id now kind value before after = record {
    id = id;
    occurred_at = now;
    kind = kind_value kind;
    object_id = value.id;
    canonical_name = value.canonical_name;
    destination_object_id = none;
    destination_canonical_name = none;
    slot_declaring_template_id = none;
    slot_name = none;
    relationship_id = none;
    relationship_definition_id = none;
    relationship_name = none;
    before_state = state_json before;
    after_state = state_json after;
  }

  -- The new row and the event that it is read as.
  unfoldable pub insert_intrinsic_event :
      List EventRow
      → Uuid
      → ℕ
      → EventKind
      → Object
      → Option Object
      → Option Object
      → Result Text (IntrinsicLifecycleEvent × List EventRow)
  unfolding intrinsic_row row_admitted decode_lifecycle_event
  insert_intrinsic_event events id now kind value before after = do
    let row : EventRow = intrinsic_row id now kind value before after
    guard (row_admitted row) check_violation
    event ← decode_lifecycle_event parse_uuid row
    elim event [
      | intrinsic found ↦ ok (found, events ++ row ∷ [])
      | _ ↦ err (codes "persisted intrinsic lifecycle event family mismatch")
    ]

  unfoldable pub ownership_row : Uuid → ℕ → EventKind → Object → Object → Uuid → Text → EventRow
  unfolding kind_value
  ownership_row id now kind child parent declaring slot = record {
    id = id;
    occurred_at = now;
    kind = kind_value kind;
    object_id = child.id;
    canonical_name = child.canonical_name;
    destination_object_id = some parent.id;
    destination_canonical_name = some parent.canonical_name;
    slot_declaring_template_id = some declaring;
    slot_name = some slot;
    relationship_id = none;
    relationship_definition_id = none;
    relationship_name = none;
    before_state = null;
    after_state = null;
  }

  unfoldable pub insert_ownership_event :
      List EventRow
      → Uuid
      → ℕ
      → EventKind
      → Object
      → Object
      → Uuid
      → Text
      → Result Text (OwnershipLifecycleEvent × List EventRow)
  unfolding is_ownership ownership_row row_admitted decode_lifecycle_event
  insert_ownership_event events id now kind child parent declaring slot = do
    guard (is_ownership kind) (codes "ownership lifecycle kind required")
    let row : EventRow = ownership_row id now kind child parent declaring slot
    guard (row_admitted row) check_violation
    event ← decode_lifecycle_event parse_uuid row
    elim event [
      | ownership found ↦ ok (found, events ++ row ∷ [])
      | _ ↦ err (codes "persisted ownership lifecycle event family mismatch")
    ]
