-- ===== src/Persistence/DataTypes/Admission.antt =====
-- The single-row locks and the admissions of `DataTypeStore`, src/netauto/persistence/datatypes.py.
-- A lock is granted in one transaction at a time, so what is left of it here is whether the row is
-- there; a key with version 0 is refused by `RowLockKey`.
use netauto.Prelude.{
  ℕ, zero, suc, ◌<◌, ◌≡◌, Bool, true, false, Option, none, some, arith, if◌then◌else◌, is_some,
  Uuid, Result, ok, err, ◌>>=◌,
}
use netauto.Domain.DataTypes.{DataType, DataTypeVersion}
use netauto.Failures.{Failure, lock}
use netauto.Persistence.Locking.Keys.{RowLockClass, RowLockMode, row_lock_key}
use netauto.Persistence.Database.{Database}
use netauto.Persistence.DataTypes.{get_lineage, get_version}

-- the rows of the two tables that a row-lock statement selects
unfoldable pub row_there : Database → Uuid → RowLockClass → Option ℕ → Bool
row_there db id RowLockClass.data_type_header v = is_some (get_lineage id db)
row_there db id RowLockClass.data_type_version (some v) = is_some (get_version id v db)
row_there db id _ _ = false

-- `_lock`, on the key that its callers build
unfoldable pub lock_row :
    RowLockClass → Uuid → Option ℕ → RowLockMode → Database → Result Failure Bool
unfolding row_lock_key row_there
lock_row row_class id v mode db = elim (row_lock_key row_class id v) [
  | ok key ↦ ok (row_there db key.resource_id key.row_class key.version)
  | err e ↦ err (lock e)
]

unfoldable pub lock_lineage_no_key : Uuid → Database → Result Failure Bool
unfolding lock_row
lock_lineage_no_key id = lock_row RowLockClass.data_type_header id none RowLockMode.nku

unfoldable pub lock_lineage_share : Uuid → Database → Result Failure Bool
unfolding lock_row
lock_lineage_share id = lock_row RowLockClass.data_type_header id none RowLockMode.s

unfoldable pub lock_lineage_update : Uuid → Database → Result Failure Bool
unfolding lock_row
lock_lineage_update id = lock_row RowLockClass.data_type_header id none RowLockMode.u

unfoldable pub lock_version_no_key : Uuid → ℕ → Database → Result Failure Bool
unfolding lock_row
lock_version_no_key id v = lock_row RowLockClass.data_type_version id (some v) RowLockMode.nku

unfoldable pub lock_version_update : Uuid → ℕ → Database → Result Failure Bool
unfolding lock_row
lock_version_update id v = lock_row RowLockClass.data_type_version id (some v) RowLockMode.u

unfoldable pub lock_version_share : Uuid → ℕ → Database → Result Failure Bool
unfolding lock_row
lock_version_share id v = lock_row RowLockClass.data_type_version id (some v) RowLockMode.s

unfoldable pub admit_exact : Uuid → ℕ → Database → Result Failure (Option DataTypeVersion)
unfolding lock_version_share
admit_exact id v db = do
  there ← lock_version_share id v db
  ok (if there then get_version id v db else none)

-- `if lineage.default_version is None: return lineage, None`, and what follows
unfoldable pub admit_default_of :
    Uuid → DataType → Database → Result Failure (Option (DataType × Option DataTypeVersion))
unfolding admit_exact
admit_default_of id lineage db = elim lineage.default_version [
  | none ↦ ok (some (lineage, none))
  | some v ↦ do admitted ← admit_exact id v db; ok (some (lineage, admitted))
]

unfoldable pub admit_default :
    Uuid → Database → Result Failure (Option (DataType × Option DataTypeVersion))
unfolding lock_lineage_share admit_default_of
admit_default id db = do
  there ← lock_lineage_share id db
  elim there [
    | false ↦ ok none
    | true ↦ elim (get_lineage id db) [
      | none ↦ ok none
      | some lineage ↦ admit_default_of id lineage db
    ]
  ]

pub admit_exact_lem :
    (id v : ℕ) (db : Database) → 0 < v → admit_exact id v db ≡ ok (get_version id v db)
unfolding admit_exact row_lock_key row_there
admit_exact_lem id zero db h = absurd (omega arith)
admit_exact_lem id (suc v) db h = ground arith
