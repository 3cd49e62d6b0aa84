-- ===== src/Persistence/Lifecycle/Kept.antt =====
-- The rows of `insert_relationship_events`, src/netauto/persistence/lifecycle.py, read again.
use netauto.Prelude.{
  ℕ, suc, ◌≡◌, refl, sym, ap, ◌∙◌, inl, inr, Bool, true, false, not, ◌&&◌, ◌||◌, Option, none, some,
  List, [], ◌∷◌, ◌++◌, map, arith, Option-cases, Text, Uuid, ◌==◌, ℕ_eq, same_refl, list_beq,
  list_eq, option_eq, length, is_empty, any, all, All, ok, guard_then, ok_unique, and_right,
}
use netauto.Prelude.Int.{pos}
use netauto.Prelude.Sort.{any-sort_by}
use netauto.Domain.Relationships.Closure.{Relationship}
use netauto.Domain.Relationships.Views.{RelationshipLifecycleView}
use netauto.Persistence.Lifecycle.{
  EventKind, relationship, RelationshipFactualState, RelationshipLifecycleEvent, is_relationship,
}
use netauto.Persistence.Lifecycle.Events.{
  EventRow, decode_lifecycle_event, decode_family, decode_relationship_event,
  decode_relationship_factual_state,
}
use netauto.Persistence.Lifecycle.Snapshot.{IsJson, decode_historical_properties-json}
use netauto.Persistence.Lifecycle.Recorded.{parse_kind-value}
use netauto.Persistence.Lifecycle.Transitions.{
  view_beq, distinct_views, valid_transition, ordered_views, relationship_state, relationship_row,
  insert_relationship_events, factual, same_relationship, valid_transition,
}
use netauto.Persistence.Lifecycle.Checks.{row_admitted, check_violation}

abbrev pub StateJson : Option Relationship → Type 0
StateJson none = Unit
StateJson (some value) = IsJson value.properties

-- the factual state of a relationship
abbrev pub factual_state : Option Relationship → Option RelationshipFactualState
factual_state none = none
factual_state (some value) = some (record {
  relationship_definition_version = pos value.relationship_definition_version;
  properties = value.properties;
})

decode-relationship_state :
    (state : Option Relationship)
    → StateJson state
    → decode_relationship_factual_state (relationship_state state) ≡ ok (factual_state state)
unfolding decode_relationship_factual_state relationship_state list_beq
decode-relationship_state none h = refl
decode-relationship_state (some value) h =
    rw (decode_historical_properties-json value.properties h) refl

-- The event of a view.
abbrev pub relationship_event :
    EventKind
    → Relationship
    → Option Relationship
    → Option Relationship
    → Uuid
    → ℕ
    → RelationshipLifecycleView
    → RelationshipLifecycleEvent
relationship_event kind value before after id now view = record {
  id = id;
  occurred_at = now;
  kind = kind;
  object_id = view.object_id;
  canonical_name = view.canonical_name;
  destination_object_id = view.destination_object_id;
  destination_canonical_name = view.destination_canonical_name;
  relationship_id = value.id;
  relationship_definition_id = value.relationship_definition_id;
  relationship_name = view.relationship_name;
  before = factual_state before;
  after = factual_state after;
}

view_beq-same : (v : RelationshipLifecycleView) → view_beq v v ≡ true
unfolding view_beq
view_beq-same v =
    rw
      (
        same_refl v.object_id,
        same_refl v.canonical_name,
        same_refl v.destination_object_id,
        same_refl v.destination_canonical_name,
        same_refl v.relationship_name,
      )
      refl

any-distinct_views :
    (p : RelationshipLifecycleView → Bool) (views : List RelationshipLifecycleView)
    → any p (distinct_views views) ≡ true
    → any p views ≡ true
unfolding any distinct_views
any-distinct_views p [] h = h
any-distinct_views p (view ∷ rest) h = ground (arith, any-distinct_views p rest)

abbrev pub AmongViews : List RelationshipLifecycleView → RelationshipLifecycleView → Type 0
AmongViews views v = any (view_beq v) views ≡ true

all_among :
    (some_views views : List RelationshipLifecycleView)
    → ((p : RelationshipLifecycleView → Bool) → any p some_views ≡ true → any p views ≡ true)
    → All (AmongViews views) some_views
unfolding any
all_among [] views h = tt
all_among (v ∷ vs) views h = (
  h (view_beq v) (rw (view_beq-same v) refl),
  all_among vs views (λ p k. h p (rw k (or_true (p v)))),
)
  where
    or_true : (b : Bool) → (b || true) ≡ true
    or_true true = refl
    or_true false = refl

ordered_views-AmongViews :
    (views : List RelationshipLifecycleView) → All (AmongViews views) (ordered_views views)
unfolding ordered_views
ordered_views-AmongViews views =
    all_among (ordered_views views) views
      (λ p h. any-distinct_views p views (sym (any-sort_by _ p (distinct_views views)) ∙ h))

module _ (parse_uuid : Text → Option Uuid) where
  decode-relationship_row :
      (kind : EventKind) (value : Relationship) (before after : Option Relationship) (id : Uuid)
      (now : ℕ) (view : RelationshipLifecycleView)
      → is_relationship kind ≡ true
      → StateJson before
      → StateJson after
      → decode_relationship_event parse_uuid kind
          (relationship_row kind value before after id now view)
        ≡ ok (relationship (relationship_event kind value before after id now view))
  unfolding decode_relationship_event relationship_row
  decode-relationship_row kind value before after id now view r jb ja =
      rw (decode-relationship_state before jb) rw (decode-relationship_state after ja) refl

  relationship_family :
      (kind : EventKind) (row : EventRow)
      → is_relationship kind ≡ true
      → decode_family parse_uuid kind row ≡ decode_relationship_event parse_uuid kind row
  unfolding decode_family
  relationship_family kind row r = rw (decode_family, r) refl

  read_again :
      (kind : EventKind) (value : Relationship) (before after : Option Relationship) (id : Uuid)
      (now : ℕ) (view : RelationshipLifecycleView)
      → is_relationship kind ≡ true
      → StateJson before
      → StateJson after
      → decode_lifecycle_event parse_uuid (relationship_row kind value before after id now view)
        ≡ ok (relationship (relationship_event kind value before after id now view))
  unfolding decode_lifecycle_event relationship_row
  read_again kind value before after id now view r jb ja = rw (parse_kind-value kind) (
      relationship_family kind (relationship_row kind value before after id now view) r
      ∙ decode-relationship_row kind value before after id now view r jb ja)

  -- The row is read as the event of one of the views, of the kind, with the two factual states.
  abbrev pub Keeps :
      List RelationshipLifecycleView
      → EventKind
      → Relationship
      → Option Relationship
      → Option Relationship
      → EventRow
      → Type 0
  Keeps views kind value before after row =
      (id : Uuid) × (now : ℕ) × (view : RelationshipLifecycleView) × AmongViews views view
      × (decode_lifecycle_event parse_uuid row
          ≡ ok (relationship (relationship_event kind value before after id now view)))

  all_keep :
      (kind : EventKind) (value : Relationship) (before after : Option Relationship)
      (new_id : RelationshipLifecycleView → Uuid) (now : ℕ)
      (all_views views : List RelationshipLifecycleView)
      → All (AmongViews all_views) views
      → is_relationship kind ≡ true
      → StateJson before
      → StateJson after
      → All
          (Keeps all_views kind value before after)
          (map (λ view. relationship_row kind value before after (new_id view) now view) views)
  all_keep kind value before after new_id now all_views [] m r jb ja = tt
  all_keep kind value before after new_id now all_views (view ∷ views) m r jb ja = (
    (
      new_id view,
      now,
      view,
      m.0,
      read_again kind value before after (new_id view) now view r jb ja,
    ),
    all_keep kind value before after new_id now all_views views m.1 r jb ja,
  )

  length-rows :
      (f : RelationshipLifecycleView → EventRow) (views : List RelationshipLifecycleView)
      → length (map f views) ≡ length views
  length-rows f [] = refl
  length-rows f (view ∷ views) = ap suc (length-rows f views)

  -- Where the properties of both states are JSON, events of a Relationship that are inserted are those
  -- of a valid transition between states of one relationship, as many as views, and each new row is
  -- read again as the event of one of the views, of the kind, with the relationship's ids and both
  -- factual states.
  pub insert_relationship_events-Keeps :
      (new_id : RelationshipLifecycleView → Uuid) (now : ℕ) (events : List EventRow)
      (kind : EventKind) (before after : Option Relationship)
      (views : List RelationshipLifecycleView) {result : List EventRow}
      → StateJson before
      → StateJson after
      → insert_relationship_events new_id now events kind before after views ≡ ok result
      → (value : Relationship) × (rows : List EventRow) × (factual before after ≡ some value)
        × (same_relationship before after ≡ true)
        × (valid_transition kind before after ≡ true)
        × (result ≡ events ++ rows)
        × (length rows ≡ length views)
        × All (Keeps views kind value before after) rows
  unfolding insert_relationship_events
  insert_relationship_events-Keeps new_id now events kind before after views {result} jb ja h =
      elim (Option-cases (factual before after)) [
        | inl n ↦ absurd (cc (rw (insert_relationship_events, n) at h))
        | inr (value, f) ↦
            let (r, h₁) =
              guard_then (is_relationship kind) _ _ (rw (insert_relationship_events, f) at h) in
            let (s, h₂) = guard_then (same_relationship before after) _ _ h₁ in
            let (t, h₃) = guard_then (valid_transition kind before after) _ _ h₂ in
            let (c, h₄) =
              guard_then
                (not (is_empty (ordered_views views))
                  && length (ordered_views views) == length views)
                _ _ h₃ in
            let (admitted, h₅) =
              guard_then
                (all row_admitted (
                  map (λ view. relationship_row kind value before after (new_id view) now view)
                    (ordered_views views)))
                check_violation _ h₄ in
            let count : length (ordered_views views) ≡ length views =
              (ℕ_eq.same_iff (length (ordered_views views)) (length views)).0
                (and_right (not (is_empty (ordered_views views))) _ c) in
            (
              value,
              map (λ view. relationship_row kind value before after (new_id view) now view)
                  (ordered_views views),
              f,
              s,
              t,
              ok_unique _ h₅ refl,
              length-rows _ (ordered_views views) ∙ count,
              all_keep kind value before after new_id now views (ordered_views views)
                  (ordered_views-AmongViews views) r jb ja,
            )
      ]
