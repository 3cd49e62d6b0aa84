-- ===== src/Application/DataTypes.antt =====
-- `DataTypeService` of src/netauto/application/datatypes.py, the operations that change state. Each
-- runs in one unit of work on the committed rows, and returns or raises. `uuid4()` is an argument,
-- and `canonicalize_constraints` is the parameter of the section that needs it. The two classes of
-- rows below are all that this capability locks, so no ObjectTemplate ancestry is loaded.
pub mod Operations
pub mod Atomicity
pub mod Acquire
pub mod Effects
pub mod Invariant
pub mod History
pub mod Pages
pub mod Names
mod Tests
use netauto.Prelude.{
  ℕ, Bool, true, false, Option, none, some, List, [], ◌∷◌, is_some, Uuid, codes, ◌==◌, ℕ_eq,
  list_eq, option_eq, Result, ok, err,
}
use netauto.Domain.Value.{Value}
use netauto.Domain.Primitives.{PrimitiveType, PrimitiveValidationError, parse_primitive_type}
use netauto.Domain.DataTypes.{
  DataType, DataTypeVersion, VersionStatus, draft, published, deprecated, CreateDataTypeResult,
  NameError, validate_qualified_name,
}
use netauto.Failures.{Failure, application, FailureClass, Code, Details, BlockerType, lock}
use netauto.Persistence.Locking.Keys
use netauto.Persistence.Locking.Keys.{
  LockError, RowLockKey, RowLockIntent, RowLockMode, RowLockClass, AdvisoryGate, row_lock_key,
}
use netauto.Persistence.Locking.Plan
use netauto.Persistence.Locking.Plan.{LockPlan, lock_plan, acquire_lock_plan}
use netauto.Persistence.Database.{Database}
use netauto.Persistence.DataTypes as Store
use netauto.Persistence.UnitOfWork.{
  Tx, Session, pure, raise, execute, query, require, commit, in_unit_of_work, ◌>>=◌, ◌>>◌,
}

abbrev pub not_found : Uuid → Failure
not_found id = application FailureClass.not_found Code.resource_not_found (Details.datatype id)

abbrev pub version_not_found : Uuid → ℕ → Failure
version_not_found id version =
    application FailureClass.not_found Code.resource_not_found (Details.datatype_version id version)

abbrev pub referenced_version_not_found : Uuid → ℕ → Failure
referenced_version_not_found id version =
    application FailureClass.semantic_validation Code.referenced_resource_not_found
      (Details.datatype_version id version)

abbrev pub state : Code → Details → Failure
state code details = application FailureClass.state_conflict code details

abbrev pub semantic : PrimitiveValidationError → Failure
semantic e =
    application FailureClass.semantic_validation Code.semantic_validation_failed
      (Details.violation e.path e.rule)

-- a `ValueError` has no path, and its text is the rule
unfoldable pub name_semantic : NameError → Failure
name_semantic NameError.invalid_qualified_name =
    semantic (record { path = codes "datatype"; rule = codes "invalid_qualified_name" })
name_semantic NameError.reserved_namespace =
    semantic (record { path = codes "datatype"; rule = codes "reserved_namespace" })

-- `RowLockKey(RowLockClass.DATA_TYPE_HEADER, datatype_id)`
abbrev pub header_key : Uuid → RowLockKey
header_key id = record {
  row_class = RowLockClass.data_type_header;
  resource_id = id;
  version = none;
}

-- `RowLockKey(RowLockClass.DATA_TYPE_VERSION, datatype_id, version)`
abbrev pub version_key : Uuid → ℕ → RowLockKey
version_key id version = record {
  row_class = RowLockClass.data_type_version;
  resource_id = id;
  version = some version;
}

-- the row-lock statements on the two tables
unfoldable pub exists_in : Database → Uuid → RowLockClass → Option ℕ → Bool
exists_in db id RowLockClass.data_type_header v = is_some (Store.get_lineage id db)
exists_in db id RowLockClass.data_type_version (some v) = is_some (Store.get_version id v db)
exists_in db id _ _ = false

unfoldable pub row_exists : Database → RowLockKey → Bool
unfolding exists_in
row_exists db k = exists_in db k.resource_id k.row_class k.version

-- `_acquire`: the keys are built, which refuses version 0, and the plan is prepared and acquired.
unfoldable pub plan_keys : List RowLockIntent → Result LockError (Unit {0})
unfolding row_lock_key
plan_keys [] = ok tt
plan_keys (i ∷ is) = elim (row_lock_key i.key.row_class i.key.resource_id i.key.version) [
  | ok _ ↦ plan_keys is
  | err e ↦ err e
]

unfoldable pub prepare : List RowLockIntent → Option AdvisoryGate → Result LockError LockPlan
unfolding plan_keys
prepare intents gate = elim (plan_keys intents) [ ok _ ↦ lock_plan intents gate [] | err e ↦ err e ]

unfoldable pub acquire : List RowLockIntent → Option AdvisoryGate → Tx (LockPlan × List RowLockKey)
acquire intents gate s = elim (prepare intents gate) [
  | err e ↦ (err (lock e), s)
  | ok plan ↦ elim (acquire_lock_plan (row_exists s.working) s.connection plan) [
    | err e ↦ (err (lock e), s)
    | ok (missing, plan', c) ↦ (ok (plan', missing), record s { connection = c })
  ]
]

unfoldable pub begin_dml : LockPlan → Tx (Unit {0})
unfolding Plan.begin_dml
begin_dml plan s = elim (Plan.begin_dml plan s.connection) [
  | ok (_, c) ↦ (ok tt, record s { connection = c })
  | err e ↦ (err (lock e), s)
]

abbrev pub header : Uuid → RowLockMode → RowLockIntent
header id mode = record { key = header_key id; mode = mode }

abbrev pub version : Uuid → ℕ → RowLockMode → RowLockIntent
version id v mode = record { key = version_key id v; mode = mode }

unfoldable pub is_draft : VersionStatus → Bool
is_draft draft = true
is_draft _ = false

-- PUBLISHED or DEPRECATED
unfoldable pub is_source : VersionStatus → Bool
is_source draft = false
is_source _ = true

unfoldable pub require_draft : DataTypeVersion → ℕ → Tx (Unit {0})
unfolding is_draft
require_draft current expected_revision = do
  require (is_draft current.status) (
      state Code.lifecycle_state_conflict
        (Details.exact_version current.datatype_id current.version))
  require (current.revision == expected_revision)
      (state Code.stale_revision (Details.revisions expected_revision current.revision))

-- a row that was read, or the exception for its absence
unfoldable pub or_raise {ℓ} : {A : Type ℓ} → Option A → Failure → Tx A
or_raise none e = raise e
or_raise (some a) e = pure a

-- `except PrimitiveValidationError as error: raise _semantic(error)`
unfoldable pub or_semantic {ℓ} : {A : Type ℓ} → Result PrimitiveValidationError A → Tx A
or_semantic (ok a) = pure a
or_semantic (err e) = raise (semantic e)
