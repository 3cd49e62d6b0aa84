-- ===== src/Persistence/Lifecycle/Tests.antt =====
-- The theorems on lifecycle events at concrete inputs. A UUID is written as one code point.
use netauto.Prelude.{
  ℕ, ◌≡◌, refl, true, false, Option, none, some, List, [], ◌∷◌, ◌++◌, Text, Uuid, codes, length,
  All, ok, err,
}
use netauto.Domain.Value.{Value}
use netauto.Domain.Identifiers.{is_identifier}
use netauto.Domain.Relationships.Views.{RelationshipLifecycleView}
use netauto.Domain.Relationships.Closure.{Relationship}
use netauto.Persistence.Lifecycle.Transitions.{
  valid_transition, same_relationship, relationship_row, insert_relationship_events, factual,
  same_relationship, valid_transition,
}
use netauto.Persistence.Lifecycle.Kept.{insert_relationship_events-Keeps, Keeps}
use netauto.Domain.Objects.{Object}
use netauto.Persistence.Lifecycle.{
  created, attach_to, is_ownership, fields_of, object_snapshot, relationship_schema_change,
}
use netauto.Persistence.Lifecycle.Snapshot.{historical, decode-object_snapshot, is_json}
use netauto.Persistence.Lifecycle.Events.{decode_object_snapshot, EventRow}
use netauto.Persistence.Lifecycle.Inserts.{
  intrinsic_row, ownership_row, insert_ownership_event, insert_intrinsic_event,
}
use netauto.Persistence.Lifecycle.Checks.{check_violation}
use netauto.Persistence.Lifecycle.Recorded.{
  intrinsic_fits, ownership_fits, ownership_event, insert_ownership_event_lem, intrinsic_event,
  insert_intrinsic_event_lem,
}

abbrev one_code : Uuid → Text
one_code u = u ∷ []

abbrev from_code : Text → Option Uuid
from_code (u ∷ []) = some u
from_code _ = none

codes_parse : (u : Uuid) → from_code (one_code u) ≡ some u
codes_parse u = refl

abbrev named : Uuid → Text → Object
named id name = record {
  id = id;
  canonical_name = name;
  template_id = 3;
  template_version = 1;
  properties = (codes "serial", Value.text (codes "A1")) ∷ [];
}

abbrev router : Object
router = named 500 (codes "router-1")

abbrev rack : Object
rack = named 400 (codes "rack-1")

decode-object_snapshot_example :
    decode_object_snapshot from_code (object_snapshot one_code router)
    ≡ ok (some (historical router))
unfolding is_json fields_of
decode-object_snapshot_example = decode-object_snapshot one_code from_code codes_parse router refl

insert_intrinsic_event_lem_example :
    (intrinsic_fits one_code from_code codes_parse created (codes "router-1") none (some router)
        ≡ true
      → insert_intrinsic_event one_code from_code [] 1 20 created router none (some router)
        ≡ ok (
          intrinsic_event one_code from_code codes_parse 1 20 created router none (some router),
          intrinsic_row one_code from_code 1 20 created router none (some router) ∷ [],
        ))
    × (intrinsic_fits one_code from_code codes_parse created (codes "router-1") none (some router)
          ≡ false
        → insert_intrinsic_event one_code from_code [] 1 20 created router none (some router)
          ≡ err check_violation)
unfolding is_json fields_of
insert_intrinsic_event_lem_example =
    insert_intrinsic_event_lem one_code from_code codes_parse [] 1 20 created router none
      (some router) tt refl

insert_ownership_event_lem_example :
    (is_ownership attach_to ≡ true
      → (ownership_fits one_code from_code codes_parse
              (codes "router-1")
              (codes "rack-1")
              (codes "slot")
            ≡ true
          → insert_ownership_event one_code from_code [] 1 20 attach_to router rack 3 (codes "slot")
            ≡ ok (
              ownership_event one_code from_code codes_parse 1 20 attach_to router rack 3
                  (codes "slot"),
              ownership_row one_code from_code 1 20 attach_to router rack 3 (codes "slot") ∷ [],
            ))
        × (ownership_fits one_code from_code codes_parse
                (codes "router-1")
                (codes "rack-1")
                (codes "slot")
              ≡ false
            → insert_ownership_event one_code from_code [] 1 20 attach_to router rack 3
                (codes "slot")
              ≡ err check_violation))
    × (is_ownership attach_to ≡ false
        → insert_ownership_event one_code from_code [] 1 20 attach_to router rack 3 (codes "slot")
          ≡ err (codes "ownership lifecycle kind required"))
insert_ownership_event_lem_example =
    insert_ownership_event_lem one_code from_code codes_parse [] 1 20 attach_to router rack 3
      (codes "slot")

abbrev view : RelationshipLifecycleView
view = record {
  object_id = 500;
  canonical_name = codes "router-1";
  destination_object_id = 400;
  destination_canonical_name = codes "rack-1";
  relationship_name = codes "in";
}

abbrev linked : ℕ → Relationship
linked version = record {
  id = 9;
  relationship_definition_id = 100;
  resolutions = [];
  relationship_definition_version = version;
  properties = [];
}

abbrev next_row : EventRow
next_row =
    relationship_row relationship_schema_change (linked 2) (some (linked 1)) (some (linked 2)) 77 20
      view

inserted_next :
    insert_relationship_events
      (λ v. 77)
      20
      []
      relationship_schema_change
      (some (linked 1))
      (some (linked 2))
      (view ∷ [])
    ≡ ok (next_row ∷ [])
unfolding insert_relationship_events is_identifier
inserted_next = refl

insert_relationship_events-Keeps_example :
    (value : Relationship) × (rows : List EventRow) × (factual (some (linked 1)) (some (linked 2))
      ≡ some value)
    × (same_relationship (some (linked 1)) (some (linked 2)) ≡ true)
    × (valid_transition relationship_schema_change (some (linked 1)) (some (linked 2)) ≡ true)
    × (next_row ∷ [] ≡ [] ++ rows)
    × (length rows ≡ 1)
    × All
        (Keeps from_code
          (view ∷ [])
          relationship_schema_change
          value
          (some (linked 1))
          (some (linked 2)))
        rows
unfolding is_json fields_of
insert_relationship_events-Keeps_example =
    insert_relationship_events-Keeps from_code (λ v. 77) 20 [] relationship_schema_change
      (some (linked 1)) (some (linked 2)) (view ∷ []) refl refl inserted_next
