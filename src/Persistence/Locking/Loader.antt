-- ===== src/Persistence/Locking/Loader.antt =====
-- `load_object_template_ancestry` and `prepare_lock_plan` of src/netauto/persistence/locking.py. The
-- rows of the recursive statement are PostgreSQL's answer, a parameter. Iteration over a dict is in
-- insertion order.
pub mod Accepted
pub mod Terminates
use netauto.Prelude.{
  ℕ, zero, suc, Bool, true, false, Option, none, some, List, [], ◌∷◌, Uuid, ℕ_eq, option_beq,
  list_eq, option_eq, length, all, contains, Result, ok, err, ◌>>=◌, ◌>>◌, guard,
}
use netauto.Prelude.Dict.{dict_get, dict_set, dict_has, keys}
use netauto.Persistence.Locking.Keys.{
  LockError, loaded_unstable, loaded_parent_missing, loaded_cycle, key_error, out_of_fuel,
  RowLockIntent, AdvisoryGate,
}
use netauto.Persistence.Locking.Ancestry.{Parents}
use netauto.Persistence.Locking.Canonical.{planned_lineages, complete_parents}
use netauto.Persistence.Locking.Plan.{LockPlan, lock_plan}

-- the loop over the rows, with `loaded.setdefault`
unfoldable pub gather : List (Uuid × Option Uuid) → Parents → Result LockError Parents
unfolding dict_get dict_set option_beq
gather [] loaded = ok loaded
gather ((id, parent) ∷ rows) loaded = elim (dict_get id loaded) [
  | none ↦ gather rows (dict_set id parent loaded)
  | some previous ↦ elim (option_beq previous parent) [
    | true ↦ gather rows loaded
    | false ↦ err loaded_unstable
  ]
]

unfoldable pub parent_loaded : Parents → Option Uuid → Bool
unfolding dict_get
parent_loaded loaded none = true
parent_loaded loaded (some parent) = dict_has parent loaded

-- the `while current is not None` loop of the cycle check
unfoldable pub climb : ℕ → Parents → List Uuid → Option Uuid → Result LockError (Unit {0})
unfolding dict_get contains
climb fuel loaded seen none = ok tt
climb zero loaded seen (some current) = err out_of_fuel
climb (suc fuel) loaded seen (some current) = elim (contains seen current) [
  | true ↦ err loaded_cycle
  | false ↦ elim (dict_get current loaded) [
    | none ↦ err key_error
    | some parent ↦ climb fuel loaded (current ∷ seen) parent
  ]
]

-- the loop over `loaded` around it
unfoldable pub climb_all : Parents → List Uuid → Result LockError (Unit {0})
unfolding climb
climb_all loaded [] = ok tt
climb_all loaded (lineage ∷ rest) = do
  climb (suc (length loaded)) loaded [] (some lineage)
  climb_all loaded rest

module _ (statement : List Uuid → List (Uuid × Option Uuid)) where
  unfoldable pub load_object_template_ancestry : List Uuid → Result LockError Parents
  unfolding gather parent_loaded climb_all complete_parents all
  load_object_template_ancestry [] = ok []
  load_object_template_ancestry (id ∷ ids) = do
    loaded ← gather (statement (id ∷ ids)) []
    guard (all (λ (_, parent). parent_loaded loaded parent) loaded) loaded_parent_missing
    climb_all loaded (keys loaded)
    ok (complete_parents (id ∷ ids) loaded)

  unfoldable pub prepare_lock_plan :
      List RowLockIntent → Option AdvisoryGate → Result LockError LockPlan
  unfolding load_object_template_ancestry planned_lineages lock_plan
  prepare_lock_plan intents gate = do
    parents ← load_object_template_ancestry (planned_lineages intents)
    lock_plan intents gate parents
