-- ===== src/Persistence/Lifecycle/Checks.antt =====
-- The CHECK constraints of `object_lifecycle_events`, src/netauto/persistence/metadata.py. A row that
-- violates some of them is refused; which of them is reported is not told apart. A column without a
-- value satisfies a test of its value.
pub mod Kinds
use netauto.Prelude.{
  Bool, true, false, not, ◌&&◌, ◌||◌, Option, none, some, List, [], ◌∷◌, leb, is_some, Text, codes,
  ◌==◌, ℕ_eq, list_beq, list_eq, option_eq, length, any,
}
use netauto.Domain.Value.{Value, null, dict}
use netauto.Domain.Identifiers.{is_identifier}
use netauto.Persistence.Lifecycle.{
  EventKind, created, rename, data_change, schema_change, attach_to, detach_from,
  relationship_created, relationship_data_change, relationship_schema_change, relationship_deleted,
  deleted,
}
use netauto.Persistence.Lifecycle.Events.{EventRow, kind_value, all_kinds}

abbrev pub check_violation : Text
check_violation = codes "a CHECK constraint of object_lifecycle_events is violated"

-- `kind IN (...)`
unfoldable pub kind_in : List EventKind → Text → Bool
unfolding any kind_value list_beq
kind_in kinds value = any (λ kind. kind_value kind == value) kinds

-- `length(...) BETWEEN 1 AND 255`
unfoldable pub name_fits : Text → Bool
name_fits name = leb 1 (length name) && leb (length name) 255

unfoldable pub or_absent : (Text → Bool) → Option Text → Bool
or_absent test none = true
or_absent test (some value) = test value

unfoldable pub is_null : Value → Bool
is_null null = true
is_null _ = false

unfoldable pub null_or_object : Value → Bool
null_or_object null = true
null_or_object (dict fields) = true
null_or_object _ = false

-- `ck_lifecycle_events_family_shape`
unfoldable pub family_shape : EventRow → Bool
unfolding kind_in is_null
family_shape row =
    let destination = is_some row.destination_object_id in
    let destination_name = is_some row.destination_canonical_name in
    let declaring = is_some row.slot_declaring_template_id in
    let slot = is_some row.slot_name in
    let id = is_some row.relationship_id in
    let definition = is_some row.relationship_definition_id in
    let name = is_some row.relationship_name in
    (kind_in (created ∷ rename ∷ data_change ∷ schema_change ∷ deleted ∷ []) row.kind
      && (not destination
          && (not destination_name
              && (not declaring && (not slot && (not id && (not definition && not name)))))))
    || ((kind_in (attach_to ∷ detach_from ∷ []) row.kind
          && (destination
              && (destination_name
                  && (declaring
                      && (slot
                          && (not id
                              && (not definition
                                  && (not name
                                      && (is_null row.before_state
                                          && is_null row.after_state)))))))))
        || (kind_in
              (relationship_created ∷ relationship_data_change ∷ relationship_schema_change
                ∷ relationship_deleted ∷ [])
              row.kind
            && (destination
                && (destination_name
                    && (id && (definition && (name && (not declaring && not slot))))))))

-- `ck_lifecycle_events_state_shape`, by the absence of the two states
unfoldable pub state_shape : Text → Bool → Bool → Bool
unfolding kind_in
state_shape kind before_null after_null =
    (kind_in (created ∷ []) kind && (before_null && not after_null))
    || ((kind_in (rename ∷ data_change ∷ schema_change ∷ []) kind
          && (not before_null && not after_null))
        || ((kind_in (deleted ∷ []) kind && (not before_null && after_null))
            || (kind_in (attach_to ∷ detach_from ∷ []) kind
                || ((kind_in (relationship_created ∷ []) kind && (before_null && not after_null))
                    || ((kind_in (relationship_data_change ∷ relationship_schema_change ∷ []) kind
                          && (not before_null && not after_null))
                        || (kind_in (relationship_deleted ∷ []) kind
                            && (not before_null && after_null)))))))

unfoldable pub row_admitted : EventRow → Bool
unfolding kind_in name_fits or_absent family_shape state_shape is_null null_or_object
row_admitted row =
    kind_in all_kinds row.kind
    && (name_fits row.canonical_name
        && (or_absent name_fits row.destination_canonical_name
            && (or_absent is_identifier row.slot_name
                && (or_absent is_identifier row.relationship_name
                    && (family_shape row
                        && (state_shape row.kind (is_null row.before_state)
                              (is_null row.after_state)
                            && (null_or_object row.before_state
                                && null_or_object row.after_state)))))))
