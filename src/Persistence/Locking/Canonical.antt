-- ===== src/Persistence/Locking/Canonical.antt =====
-- `_canonical_intents` of src/netauto/persistence/locking.py: the complete plan in the one order in
-- which its rows are locked.
pub mod Strict
pub mod Unique
use netauto.Prelude.{
  ℕ, suc, not, ◌&&◌, Option, none, some, List, [], ◌∷◌, if◌then◌else◌, Uuid, ◌==◌, ℕ_eq, list_eq,
  option_eq, contains, Result, ok, ◌>>=◌, ◌>>◌,
}
use netauto.Prelude.Dict.{dict_get, dict_set, dict_has}
use netauto.Prelude.Sort.{sort_by}
use netauto.Persistence.Locking.Keys.{
  LockError, RowLockKey, RowLockIntent, family_rank, resource_rank, is_object_template_class,
}
use netauto.Persistence.Locking.Coalesce.{coalesce}
use netauto.Persistence.Locking.Ancestry.{Parents, object_template_order}

unfoldable pub version_or_zero : Option ℕ → ℕ
version_or_zero none = 0
version_or_zero (some v) = v

-- `{lineage_id: index for index, lineage_id in enumerate(result)}`, looked up; the lineage is in it
unfoldable pub index_of : Uuid → List Uuid → ℕ
index_of id [] = 0
index_of id (x ∷ xs) = if x == id then 0 else suc (index_of id xs)

-- the tuple of the inner function `sort_key`
unfoldable pub sort_key : List Uuid → RowLockIntent → List ℕ
unfolding index_of is_object_template_class
sort_key ot_order intent =
    let key = intent.key in
    family_rank key.row_class
    ∷ (if is_object_template_class key.row_class
        then index_of key.resource_id ot_order
        else key.resource_id)
    ∷ resource_rank key.row_class
    ∷ version_or_zero key.version
    ∷ key.resource_id
    ∷ []

-- the set `ot_lineages`
unfoldable pub planned_lineages : List RowLockIntent → List Uuid
unfolding is_object_template_class contains
planned_lineages [] = []
planned_lineages (intent ∷ rest) =
    let others = planned_lineages rest in
    if is_object_template_class intent.key.row_class && not (contains others intent.key.resource_id)
    then intent.key.resource_id ∷ others
    else others

-- `complete_parent_by_id.setdefault(lineage_id, None)`
unfoldable pub complete_parents : List Uuid → Parents → Parents
unfolding dict_get dict_set
complete_parents [] parents = parents
complete_parents (id ∷ ids) parents =
    let later = complete_parents ids parents in
    if dict_has id later then later else dict_set id none later

unfoldable pub lineage_order : List Uuid → Parents → Result LockError (List Uuid)
unfolding object_template_order complete_parents
lineage_order [] parents = ok []
lineage_order (id ∷ ids) parents =
    object_template_order (id ∷ ids) (complete_parents (id ∷ ids) parents)

unfoldable pub canonical_intents :
    List RowLockIntent → Parents → Result LockError (List RowLockIntent)
unfolding coalesce planned_lineages lineage_order sort_key sort_by family_rank resource_rank
    version_or_zero
canonical_intents intents parents = do
  let coalesced = coalesce intents
  ot_order ← lineage_order (planned_lineages coalesced) parents
  ok (sort_by (sort_key ot_order) coalesced)
