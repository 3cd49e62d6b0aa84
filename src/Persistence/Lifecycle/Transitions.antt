-- ===== src/Persistence/Lifecycle/Transitions.antt =====
-- `insert_relationship_events` of src/netauto/persistence/lifecycle.py. Of two equal views the set
-- keeps the last; JSON holds no `other` and no odd dict. The rows are inserted together: where the table
-- refuses one of them, the insert raises.
use netauto.Prelude.{
  ℕ, suc, Bool, true, false, not, ◌&&◌, Option, none, some, List, [], ◌∷◌, ◌++◌, map, ltb, nat_eq,
  if◌then◌else◌, Text, Uuid, codes, ◌==◌, ℕ_eq, list_beq, list_eq, option_eq, length, is_empty, any,
  all, Result, ok, err, ◌>>◌, guard,
}
use netauto.Prelude.Int.{ℤ, pos, int_beq}
use netauto.Prelude.Dict.{Dict, dict_get}
use netauto.Prelude.Sort.{sort_by}
use netauto.Domain.Value.{
  Value, Items, nil, cons, Fields, end, field, null, boolean, integer, text, list, dict,
}
use netauto.Domain.Relationships.Closure.{Relationship, RuntimeRelationshipResolution}
use netauto.Domain.Relationships.Views.{RelationshipLifecycleView}
use netauto.Persistence.Lifecycle.{
  EventKind, relationship_created, relationship_data_change, relationship_schema_change,
  relationship_deleted, fields_of, items_of, is_relationship,
}
use netauto.Persistence.Lifecycle.Events.{EventRow, kind_value}
use netauto.Persistence.Lifecycle.Checks.{row_admitted, check_violation}

-- `True` and `False` are the integers 1 and 0
abbrev pub truth : Bool → ℤ
truth true = pos 1
truth false = pos 0

abbrev pub fields_length : Fields → ℕ
fields_length end = 0
fields_length (field name value rest) = suc (fields_length rest)

unfoldable mutual
  unfolding int_beq list_beq dict_get items_of

  -- `==` on JSON values; the order of a dict's items does not matter
  pub value_beq : Value → Value → Bool
  value_beq null null = true
  value_beq (boolean a) (boolean b) = int_beq (truth a) (truth b)
  value_beq (boolean a) (integer j) = int_beq (truth a) j
  value_beq (integer i) (boolean b) = int_beq i (truth b)
  value_beq (integer i) (integer j) = int_beq i j
  value_beq (text s) (text t) = s == t
  value_beq (list items) (list others) = items_beq items others
  value_beq (dict fields) (dict others) =
      nat_eq (fields_length fields) (fields_length others) && fields_within fields (items_of others)
  value_beq _ _ = false

  pub items_beq : Items → Items → Bool
  items_beq nil nil = true
  items_beq (cons v vs) (cons w ws) = value_beq v w && items_beq vs ws
  items_beq _ _ = false

  -- each item of the one dict is in the other
  pub fields_within : Fields → Dict Text Value → Bool
  fields_within end d = true
  fields_within (field name value rest) d =
      let later = fields_within rest d in
      elim (dict_get name d) [ none ↦ false | some found ↦ value_beq value found && later ]

abbrev pub properties_beq : Dict Text Value → Dict Text Value → Bool
properties_beq a b = value_beq (dict (fields_of a)) (dict (fields_of b))

unfoldable pub resolution_beq : RuntimeRelationshipResolution → RuntimeRelationshipResolution → Bool
resolution_beq a b =
    a.relationship_id == b.relationship_id
    && (a.relationship_definition_id == b.relationship_definition_id
        && (a.resolution_id == b.resolution_id
            && (a.from_object_id == b.from_object_id && a.to_object_id == b.to_object_id)))

unfoldable pub resolutions_beq :
    List RuntimeRelationshipResolution → List RuntimeRelationshipResolution → Bool
unfolding resolution_beq
resolutions_beq [] [] = true
resolutions_beq (a ∷ rest) (b ∷ others) = resolution_beq a b && resolutions_beq rest others
resolutions_beq _ _ = false

-- the same relationship before and after
unfoldable pub same_relationship : Option Relationship → Option Relationship → Bool
unfolding resolutions_beq
same_relationship (some before) (some after) =
    before.id == after.id
    && (before.relationship_definition_id == after.relationship_definition_id
        && resolutions_beq before.resolutions after.resolutions)
same_relationship _ _ = true

-- `valid`, of a kind of the relationship family
unfoldable pub valid_transition : EventKind → Option Relationship → Option Relationship → Bool
unfolding value_beq
valid_transition relationship_created none (some after) = true
valid_transition relationship_deleted (some before) none = true
valid_transition relationship_data_change (some before) (some after) =
    before.relationship_definition_version == after.relationship_definition_version
    && not (properties_beq before.properties after.properties)
valid_transition relationship_schema_change (some before) (some after) =
    ltb before.relationship_definition_version after.relationship_definition_version
valid_transition _ _ _ = false

-- `after if after is not None else before`
abbrev pub factual : Option Relationship → Option Relationship → Option Relationship
factual before (some after) = some after
factual before none = before

unfoldable pub view_beq : RelationshipLifecycleView → RelationshipLifecycleView → Bool
unfolding list_beq
view_beq a b =
    a.object_id == b.object_id
    && (a.canonical_name == b.canonical_name
        && (a.destination_object_id == b.destination_object_id
            && (a.destination_canonical_name == b.destination_canonical_name
                && a.relationship_name == b.relationship_name)))

-- `set(views)`
unfoldable pub distinct_views : List RelationshipLifecycleView → List RelationshipLifecycleView
unfolding any view_beq
distinct_views [] = []
distinct_views (view ∷ rest) =
    let later = distinct_views rest in if any (view_beq view) rest then later else view ∷ later

unfoldable pub ordered_views : List RelationshipLifecycleView → List RelationshipLifecycleView
unfolding distinct_views sort_by
ordered_views views =
    sort_by (λ view. view.object_id ∷ view.destination_object_id ∷ view.relationship_name)
      (distinct_views views)

-- `_relationship_state`, or `None`
unfoldable pub relationship_state : Option Relationship → Value
unfolding fields_of
relationship_state none = null
relationship_state (some value) = dict (
    field (codes "relationship_definition_version")
      (integer (pos value.relationship_definition_version))
      (field (codes "properties") (dict (fields_of value.properties)) end))

unfoldable pub relationship_row :
    EventKind
    → Relationship
    → Option Relationship
    → Option Relationship
    → Uuid
    → ℕ
    → RelationshipLifecycleView
    → EventRow
unfolding kind_value relationship_state
relationship_row kind value before after id now view = record {
  id = id;
  occurred_at = now;
  kind = kind_value kind;
  object_id = view.object_id;
  canonical_name = view.canonical_name;
  destination_object_id = some view.destination_object_id;
  destination_canonical_name = some view.destination_canonical_name;
  slot_declaring_template_id = none;
  slot_name = none;
  relationship_id = some value.id;
  relationship_definition_id = some value.relationship_definition_id;
  relationship_name = some view.relationship_name;
  before_state = relationship_state before;
  after_state = relationship_state after;
}

abbrev pub incoherent : Text
incoherent = codes "incoherent Relationship lifecycle transition"

-- The rows that are inserted; `new_id` gives the database's id for the row of a view.
unfoldable pub insert_relationship_events :
    (RelationshipLifecycleView → Uuid)
    → ℕ
    → List EventRow
    → EventKind
    → Option Relationship
    → Option Relationship
    → List RelationshipLifecycleView
    → Result Text (List EventRow)
unfolding is_relationship same_relationship valid_transition ordered_views relationship_row all
    row_admitted
insert_relationship_events new_id now events kind before after views = elim (factual before after) [
  | none ↦ err (codes "unsupported Relationship lifecycle transition")
  | some value ↦ do
    guard (is_relationship kind) (codes "unsupported Relationship lifecycle transition")
    guard (same_relationship before after) incoherent
    guard (valid_transition kind before after) incoherent
    guard (not (is_empty (ordered_views views)) && length (ordered_views views) == length views)
        (codes "Relationship lifecycle projection is incomplete")
    let rows : List EventRow =
        map (λ view. relationship_row kind value before after (new_id view) now view)
          (ordered_views views)
    guard (all row_admitted rows) check_violation
    ok (events ++ rows)
]
