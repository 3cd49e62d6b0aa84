-- ===== src/Persistence/Lifecycle/Snapshot.antt =====
-- The states that src/netauto/persistence/lifecycle.py writes, read again.
use netauto.Prelude.{
  ◌≡◌, refl, ap, Bool, true, false, ◌&&◌, Option, some, [], ◌∷◌, Text, Uuid, ℕ_eq, list_beq,
  list_eq, option_eq, ok, and_left, and_right,
}
use netauto.Prelude.Int.{pos}
use netauto.Prelude.Dict.{Dict}
use netauto.Domain.Value.{
  Value, Items, nil, cons, Fields, end, field, null, other, odd_dict, boolean, integer, text, list,
  dict,
}
use netauto.Domain.Objects.{Object}
use netauto.Persistence.Lifecycle.{
  decode_value, fields_of, items_of, HistoricalObject, decode_historical_properties, properties_of,
  decode_items, object_snapshot, decode_fields,
}
use netauto.Persistence.Lifecycle.Events.{decode_object_snapshot}

unfoldable mutual
  -- a value that JSON has: no float, no dict with an odd key, at any depth
  pub is_json : Value → Bool
  is_json null = true
  is_json (text t) = true
  is_json (boolean b) = true
  is_json (integer i) = true
  is_json (list items) = are_json items
  is_json (dict fields) = fields_are_json fields
  is_json odd_dict = false
  is_json other = false

  pub are_json : Items → Bool
  are_json nil = true
  are_json (cons item rest) = is_json item && are_json rest

  pub fields_are_json : Fields → Bool
  fields_are_json end = true
  fields_are_json (field name value rest) = is_json value && fields_are_json rest

mutual
  unfolding is_json decode_value

  decode_value-json : (v : Value) → is_json v ≡ true → decode_value v ≡ ok v
  decode_value-json null h = refl
  decode_value-json (text t) h = refl
  decode_value-json (boolean b) h = refl
  decode_value-json (integer i) h = refl
  decode_value-json (list items) h = rw (decode_items-json items h) refl
  decode_value-json (dict fields) h = rw (decode_fields-json fields h) refl
  decode_value-json odd_dict h = cc
  decode_value-json other h = cc

  decode_items-json : (items : Items) → are_json items ≡ true → decode_items items ≡ ok items
  decode_items-json nil h = refl
  decode_items-json (cons item rest) h =
      rw
        (
          decode_value-json item (and_left (is_json item) (are_json rest) h),
          decode_items-json rest (and_right (is_json item) (are_json rest) h),
        )
        refl

  decode_fields-json :
      (fields : Fields) → fields_are_json fields ≡ true → decode_fields fields ≡ ok fields
  decode_fields-json end h = refl
  decode_fields-json (field name value rest) h =
      rw
        (
          decode_value-json value (and_left (is_json value) (fields_are_json rest) h),
          decode_fields-json rest (and_right (is_json value) (fields_are_json rest) h),
        )
        refl

items-fields : (d : Dict Text Value) → items_of (fields_of d) ≡ d
unfolding items_of fields_of
items-fields [] = refl
items-fields ((name, value) ∷ rest) = ap (λ d. (name, value) ∷ d) (items-fields rest)

-- every value of the dict is one that JSON has
abbrev pub IsJson : Dict Text Value → Type 0
IsJson d = fields_are_json (fields_of d) ≡ true

pub decode_historical_properties-json :
    (d : Dict Text Value) → IsJson d → decode_historical_properties (dict (fields_of d)) ≡ ok d
unfolding decode_historical_properties properties_of decode_value
decode_historical_properties-json d h =
    rw (decode_fields-json (fields_of d) h) (ap ok (items-fields d))

-- the Object as its JSON carries it
abbrev pub historical : Object → HistoricalObject
historical value = record {
  id = value.id;
  canonical_name = value.canonical_name;
  template_id = value.template_id;
  template_version = pos value.template_version;
  properties = value.properties;
}

module _ (uuid_text : Uuid → Text) (parse_uuid : Text → Option Uuid)
    (parsed : (u : Uuid) → parse_uuid (uuid_text u) ≡ some u) where
  -- Where `UUID(str(u))` is `u`, the snapshot of an Object whose properties are JSON is read as that
  -- Object.
  pub decode-object_snapshot :
      (value : Object)
      → IsJson value.properties
      → decode_object_snapshot parse_uuid (object_snapshot uuid_text value)
        ≡ ok (some (historical value))
  unfolding decode_object_snapshot object_snapshot list_beq
  decode-object_snapshot value h =
      rw (parsed value.id, parsed value.template_id) rw
        (decode_historical_properties-json value.properties h) refl
