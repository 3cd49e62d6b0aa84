-- ===== src/Persistence/Lifecycle/Recorded.antt =====
-- The events that the inserts of src/netauto/persistence/lifecycle.py return.
use netauto.Prelude.{
  ℕ, ◌≡◌, refl, ◌∙◌, Bool, true, false, not, ◌&&◌, ◌||◌, Option, none, some, List, [], ◌∷◌, ◌++◌,
  arith, is_some, Text, Uuid, codes, ok, err, and_left,
}
use netauto.Domain.Objects.{Object}
use netauto.Persistence.Lifecycle.{
  EventKind, created, rename, data_change, schema_change, attach_to, detach_from,
  relationship_created, relationship_data_change, relationship_schema_change, relationship_deleted,
  deleted, intrinsic, HistoricalObject, is_intrinsic, IntrinsicLifecycleEvent, is_relationship,
  is_ownership, OwnershipLifecycleEvent, ownership, object_snapshot,
}
use netauto.Persistence.Lifecycle.Snapshot.{IsJson, historical, decode-object_snapshot}
use netauto.Persistence.Lifecycle.Events.{
  parse_kind, kind_value, decode_object_snapshot, decode_lifecycle_event, decode_intrinsic_event,
  EventRow, decode_ownership_event, decode_family,
}
use netauto.Persistence.Lifecycle.Inserts.{
  insert_intrinsic_event, state_json, intrinsic_row, insert_ownership_event, ownership_row,
}
use netauto.Persistence.Lifecycle.Checks.{
  check_violation, row_admitted, name_fits, is_null, null_or_object, family_shape, state_shape,
  or_absent,
}
use netauto.Persistence.Lifecycle.Checks.Kinds.{states_fit, kind_in-families, state_shape_lem}
use netauto.Domain.Identifiers.{is_identifier}

pub parse_kind-value : (kind : EventKind) → parse_kind (kind_value kind) ≡ ok kind
unfolding parse_kind kind_value
parse_kind-value created = refl
parse_kind-value rename = refl
parse_kind-value data_change = refl
parse_kind-value schema_change = refl
parse_kind-value attach_to = refl
parse_kind-value detach_from = refl
parse_kind-value relationship_created = refl
parse_kind-value relationship_data_change = refl
parse_kind-value relationship_schema_change = refl
parse_kind-value relationship_deleted = refl
parse_kind-value deleted = refl

-- An intrinsic kind is of no other family.
intrinsic_alone :
    (kind : EventKind)
    → is_intrinsic kind ≡ true
    → (is_relationship kind ≡ false) × (is_ownership kind ≡ false)
unfolding is_intrinsic is_relationship is_ownership
intrinsic_alone kind h = (ground arith, ground arith)

ownership_alone : (kind : EventKind) → is_ownership kind ≡ true → is_relationship kind ≡ false
unfolding is_relationship is_ownership
ownership_alone kind h = ground arith

ownership_states :
    (kind : EventKind) → is_ownership kind ≡ true → states_fit kind false false ≡ true
unfolding is_ownership
ownership_states kind h = ground arith

abbrev pub AllJson : Option Object → Type 0
AllJson none = Unit
AllJson (some value) = IsJson value.properties

abbrev pub recorded : Option Object → Option HistoricalObject
recorded none = none
recorded (some value) = some (historical value)

module _ (uuid_text : Uuid → Text) (parse_uuid : Text → Option Uuid)
    (parsed : (u : Uuid) → parse_uuid (uuid_text u) ≡ some u) where
  decode-state_json :
      (state : Option Object)
      → AllJson state
      → decode_object_snapshot parse_uuid (state_json uuid_text parse_uuid state)
        ≡ ok (recorded state)
  unfolding decode_object_snapshot
  decode-state_json none h = refl
  decode-state_json (some value) h = decode-object_snapshot uuid_text parse_uuid parsed value h

  abbrev pub intrinsic_event :
      Uuid → ℕ → EventKind → Object → Option Object → Option Object → IntrinsicLifecycleEvent
  intrinsic_event id now kind value before after = record {
    id = id;
    occurred_at = now;
    kind = kind;
    object_id = value.id;
    canonical_name = value.canonical_name;
    before = recorded before;
    after = recorded after;
  }

  decode_family-ownership :
      (kind : EventKind) (row : EventRow)
      → is_ownership kind ≡ true
      → decode_family parse_uuid kind row ≡ decode_ownership_event parse_uuid kind row
  unfolding decode_family
  decode_family-ownership kind row o = rw (decode_family, ownership_alone kind o, o) refl

  decode_family-intrinsic :
      (kind : EventKind) (row : EventRow)
      → is_intrinsic kind ≡ true
      → decode_family parse_uuid kind row ≡ decode_intrinsic_event parse_uuid kind row
  unfolding decode_family
  decode_family-intrinsic kind row i =
      let (r, o) = intrinsic_alone kind i in rw (decode_family, r, o) refl

  decode_intrinsic :
      (id : Uuid) (now : ℕ) (kind : EventKind) (value : Object) (before after : Option Object)
      → is_intrinsic kind ≡ true
      → AllJson before
      → AllJson after
      → decode_intrinsic_event parse_uuid kind
          (intrinsic_row uuid_text parse_uuid id now kind value before after)
        ≡ ok (intrinsic (intrinsic_event id now kind value before after))
  unfolding decode_intrinsic_event intrinsic_row
  decode_intrinsic id now kind value before after i jb ja =
      rw i rw (decode-state_json before jb) rw (decode-state_json after ja) refl

  state_json_lem :
      (state : Option Object)
      → (is_null (state_json uuid_text parse_uuid state) ≡ not (is_some state))
        × (null_or_object (state_json uuid_text parse_uuid state) ≡ true)
  unfolding is_null null_or_object object_snapshot
  state_json_lem none = (refl, refl)
  state_json_lem (some value) = (refl, refl)

  decode-intrinsic_row :
      (id : Uuid) (now : ℕ) (kind : EventKind) (value : Object) (before after : Option Object)
      → is_intrinsic kind ≡ true
      → AllJson before
      → AllJson after
      → decode_lifecycle_event parse_uuid
          (intrinsic_row uuid_text parse_uuid id now kind value before after)
        ≡ ok (intrinsic (intrinsic_event id now kind value before after))
  unfolding decode_lifecycle_event intrinsic_row
  decode-intrinsic_row id now kind value before after i jb ja = rw (parse_kind-value kind) (
      decode_family-intrinsic kind
        (intrinsic_row uuid_text parse_uuid id now kind value before after) i
      ∙ decode_intrinsic id now kind value before after i jb ja)

  -- what the table asks of an intrinsic event: its kind, the length of the name, and which states
  abbrev pub intrinsic_fits : EventKind → Text → Option Object → Option Object → Bool
  intrinsic_fits kind name before after =
      is_intrinsic kind && (name_fits name && states_fit kind (is_some before) (is_some after))

  row_admitted-intrinsic :
      (id : Uuid) (now : ℕ) (kind : EventKind) (value : Object) (before after : Option Object)
      → row_admitted (intrinsic_row uuid_text parse_uuid id now kind value before after)
        ≡ intrinsic_fits kind value.canonical_name before after
  unfolding row_admitted intrinsic_row family_shape or_absent
  row_admitted-intrinsic id now kind value before after =
      let (listed, i, o, r) = kind_in-families kind in
      let (b, b') = state_json_lem before in
      let (a, a') = state_json_lem after in
      let shape : state_shape (kind_value kind) (is_null (state_json uuid_text parse_uuid before))
            (is_null (state_json uuid_text parse_uuid after))
          ≡ states_fit kind (is_some before) (is_some after) =
        rw (b, a) (state_shape_lem kind (is_some before) (is_some after)) in
      rw (shape, listed, i, o, r, b', a')
        (only_family (is_intrinsic kind) (is_ownership kind) (is_relationship kind)
          (name_fits value.canonical_name) (states_fit kind (is_some before) (is_some after)))
    where
      only_family :
          (i o r n s : Bool)
          → (n && ((i && true || (o && false || r && false)) && (s && true))) ≡ (i && (n && s))
      only_family i o r n s = ground arith

  -- Where `UUID(str(u))` is `u` and the properties of both states are JSON, an intrinsic event is
  -- recorded exactly for an intrinsic kind, a name of 1 to 255 characters, and the states of the kind:
  -- none before and one after a creation, one before and none after a deletion, and both otherwise. The
  -- event that is returned has the kind, the Object's id and name and both states, and its row is the
  -- one new row. Any other row is refused by a CHECK constraint.
  pub insert_intrinsic_event_lem :
      (events : List EventRow) (id : Uuid) (now : ℕ) (kind : EventKind) (value : Object)
      (before after : Option Object)
      → AllJson before
      → AllJson after
      → (intrinsic_fits kind value.canonical_name before after ≡ true
          → insert_intrinsic_event uuid_text parse_uuid events id now kind value before after
            ≡ ok (
              intrinsic_event id now kind value before after,
              events ++ intrinsic_row uuid_text parse_uuid id now kind value before after ∷ [],
            ))
        × (intrinsic_fits kind value.canonical_name before after ≡ false
            → insert_intrinsic_event uuid_text parse_uuid events id now kind value before after
              ≡ err check_violation)
  unfolding insert_intrinsic_event
  insert_intrinsic_event_lem events id now kind value before after jb ja =
      let admitted = row_admitted-intrinsic id now kind value before after in
      (
        λ h.
            let i = and_left (is_intrinsic kind) _ h in
            rw (admitted ∙ h) rw (decode-intrinsic_row id now kind value before after i jb ja) refl,
        λ h. rw (admitted ∙ h) refl,
      )

  abbrev pub ownership_event :
      Uuid → ℕ → EventKind → Object → Object → Uuid → Text → OwnershipLifecycleEvent
  ownership_event id now kind child parent declaring slot = record {
    id = id;
    occurred_at = now;
    kind = kind;
    object_id = child.id;
    canonical_name = child.canonical_name;
    destination_object_id = parent.id;
    destination_canonical_name = parent.canonical_name;
    slot_declaring_template_id = declaring;
    slot_name = slot;
  }

  decode-ownership_row :
      (id : Uuid) (now : ℕ) (kind : EventKind) (child parent : Object) (declaring : Uuid)
      (slot : Text)
      → is_ownership kind ≡ true
      → decode_lifecycle_event parse_uuid
          (ownership_row uuid_text parse_uuid id now kind child parent declaring slot)
        ≡ ok (ownership (ownership_event id now kind child parent declaring slot))
  unfolding decode_lifecycle_event decode_ownership_event ownership_row
  decode-ownership_row id now kind child parent declaring slot o =
      rw (parse_kind-value kind) rw
        (decode_family-ownership kind
          (ownership_row uuid_text parse_uuid id now kind child parent declaring slot) o)
        refl

  -- what the table asks of an ownership event: the lengths of both names, and an identifier as slot
  abbrev pub ownership_fits : Text → Text → Text → Bool
  ownership_fits child parent slot = name_fits child && (name_fits parent && is_identifier slot)

  row_admitted-ownership :
      (id : Uuid) (now : ℕ) (kind : EventKind) (child parent : Object) (declaring : Uuid)
      (slot : Text)
      → is_ownership kind ≡ true
      → row_admitted (ownership_row uuid_text parse_uuid id now kind child parent declaring slot)
        ≡ ownership_fits child.canonical_name parent.canonical_name slot
  unfolding row_admitted ownership_row family_shape or_absent is_null null_or_object
  row_admitted-ownership id now kind child parent declaring slot h =
      let (listed, i, o, r) = kind_in-families kind in
      rw (state_shape_lem kind false false, listed, i, o, r, h, ownership_states kind h)
        (only_family (is_intrinsic kind) (is_relationship kind) (name_fits child.canonical_name)
          (name_fits parent.canonical_name) (is_identifier slot))
    where
      only_family :
          (i r c p s : Bool)
          → (c && (p && (s && ((i && false || (true || r && false)) && true)))) ≡ (c && (p && s))
      only_family i r c p s = ground arith

  -- An ownership event is recorded exactly for the kinds of attaching and detaching, names of 1 to 255
  -- characters, and an identifier as the slot: the event that is returned names the kind, both Objects
  -- and the slot, and its row is the one new row. Of these kinds any other row is refused by a CHECK
  -- constraint, and any other kind raises before a row is inserted.
  pub insert_ownership_event_lem :
      (events : List EventRow) (id : Uuid) (now : ℕ) (kind : EventKind) (child parent : Object)
      (declaring : Uuid) (slot : Text)
      → (is_ownership kind ≡ true
          → (ownership_fits child.canonical_name parent.canonical_name slot ≡ true
              → insert_ownership_event uuid_text parse_uuid events id now kind child parent
                  declaring slot
                ≡ ok (
                  ownership_event id now kind child parent declaring slot,
                  events
                      ++ ownership_row uuid_text parse_uuid id now kind child parent declaring slot
                        ∷ [],
                ))
            × (ownership_fits child.canonical_name parent.canonical_name slot ≡ false
                → insert_ownership_event uuid_text parse_uuid events id now kind child parent
                    declaring slot
                  ≡ err check_violation))
        × (is_ownership kind ≡ false
            → insert_ownership_event uuid_text parse_uuid events id now kind child parent declaring
                slot
              ≡ err (codes "ownership lifecycle kind required"))
  unfolding insert_ownership_event
  insert_ownership_event_lem events id now kind child parent declaring slot = (
    λ o.
        let admitted = row_admitted-ownership id now kind child parent declaring slot o in
        (
          λ h.
              rw o rw (admitted ∙ h) rw
                (decode-ownership_row id now kind child parent declaring slot o) refl,
          λ h. rw o rw (admitted ∙ h) refl,
        ),
    λ o. rw o refl,
  )
