-- ===== src/Persistence/Locking/Coalesce.antt =====
-- `_coalesce` of src/netauto/persistence/locking.py: one intent for each row, in the strongest mode
-- that was requested. The dict from keys to intents is the list of its values, in insertion order.
pub mod Strongest
use netauto.Prelude.{List, [], ◌∷◌, ltb, if◌then◌else◌}
use netauto.Persistence.Locking.Keys.{RowLockIntent, mode_value, key_beq, key_eq}

-- `current is None or intent.mode > current.mode`, and the write that follows
unfoldable pub upsert : RowLockIntent → List RowLockIntent → List RowLockIntent
upsert intent [] = intent ∷ []
upsert intent (current ∷ rest) =
    let later = upsert intent rest in
    if key_beq current.key intent.key
    then (if ltb (mode_value current.mode) (mode_value intent.mode)
        then intent ∷ rest
        else current ∷ rest)
    else current ∷ later

unfoldable pub coalesce_into : List RowLockIntent → List RowLockIntent → List RowLockIntent
unfolding upsert
coalesce_into coalesced [] = coalesced
coalesce_into coalesced (intent ∷ intents) = coalesce_into (upsert intent coalesced) intents

unfoldable pub coalesce : List RowLockIntent → List RowLockIntent
unfolding coalesce_into
coalesce intents = coalesce_into [] intents
