-- ===== src/Persistence/Lifecycle/Checks/Kinds.antt =====
-- What the CHECK constraints of `object_lifecycle_events` ask of each kind of event.
use netauto.Prelude.{
  ◌≡◌, refl, Bool, true, not, ◌&&◌, [], ◌∷◌, arith, ℕ_eq, list_beq, list_eq, option_eq, any,
}
use netauto.Persistence.Lifecycle.{
  EventKind, created, rename, data_change, schema_change, attach_to, detach_from,
  relationship_created, relationship_data_change, relationship_schema_change, relationship_deleted,
  deleted, is_intrinsic, is_ownership, is_relationship,
}
use netauto.Persistence.Lifecycle.Events.{kind_value, all_kinds}
use netauto.Persistence.Lifecycle.Checks.{kind_in, state_shape}

-- The three lists of kinds in the constraints are the three families.
pub kind_in-families :
    (kind : EventKind)
    → (kind_in all_kinds (kind_value kind) ≡ true)
      × (kind_in (created ∷ rename ∷ data_change ∷ schema_change ∷ deleted ∷ []) (kind_value kind)
          ≡ is_intrinsic kind)
      × (kind_in (attach_to ∷ detach_from ∷ []) (kind_value kind) ≡ is_ownership kind)
      × (kind_in
            (relationship_created ∷ relationship_data_change ∷ relationship_schema_change
              ∷ relationship_deleted ∷ [])
            (kind_value kind)
          ≡ is_relationship kind)
unfolding kind_in any kind_value list_beq is_intrinsic is_ownership is_relationship
kind_in-families created = (refl, refl, refl, refl)
kind_in-families rename = (refl, refl, refl, refl)
kind_in-families data_change = (refl, refl, refl, refl)
kind_in-families schema_change = (refl, refl, refl, refl)
kind_in-families attach_to = (refl, refl, refl, refl)
kind_in-families detach_from = (refl, refl, refl, refl)
kind_in-families relationship_created = (refl, refl, refl, refl)
kind_in-families relationship_data_change = (refl, refl, refl, refl)
kind_in-families relationship_schema_change = (refl, refl, refl, refl)
kind_in-families relationship_deleted = (refl, refl, refl, refl)
kind_in-families deleted = (refl, refl, refl, refl)

-- whether an event of the kind may have these states: one before, and one after
abbrev pub states_fit : EventKind → Bool → Bool → Bool
states_fit created before after = not before && after
states_fit rename before after = before && after
states_fit data_change before after = before && after
states_fit schema_change before after = before && after
states_fit attach_to before after = true
states_fit detach_from before after = true
states_fit relationship_created before after = not before && after
states_fit relationship_data_change before after = before && after
states_fit relationship_schema_change before after = before && after
states_fit relationship_deleted before after = before && not after
states_fit deleted before after = before && not after

pub state_shape_lem :
    (kind : EventKind) (before after : Bool)
    → state_shape (kind_value kind) (not before) (not after) ≡ states_fit kind before after
unfolding state_shape kind_in any kind_value list_beq
state_shape_lem created before after = ground arith
state_shape_lem rename before after = ground arith
state_shape_lem data_change before after = ground arith
state_shape_lem schema_change before after = ground arith
state_shape_lem attach_to before after = ground arith
state_shape_lem detach_from before after = ground arith
state_shape_lem relationship_created before after = ground arith
state_shape_lem relationship_data_change before after = ground arith
state_shape_lem relationship_schema_change before after = ground arith
state_shape_lem relationship_deleted before after = ground arith
state_shape_lem deleted before after = ground arith
