-- ===== src/Application/DataTypes/Effects.antt =====
-- What each operation does to the committed rows, with the locks and the unit of work gone: the
-- guards in order, then one statement or two.
pub mod Refines
pub mod Leaves
pub mod Serve
use netauto.Prelude.{
  ℕ, zero, suc, not, Option, none, some, Text, Uuid, ◌==◌, ℕ_eq, option_beq, list_eq, option_eq,
  is_empty, Result, ok, err, ◌>>=◌, ◌>>◌, guard,
}
use netauto.Domain.DataTypes.{
  DataType, DataTypeVersion, VersionStatus, draft, published, deprecated,
}
use netauto.Failures.{Failure, application, FailureClass, Code, Details, lock}
use netauto.Persistence.Locking.Keys.{
  RowLockKey, RowLockMode, positive_version_required, key_beq, key_eq, class_beq,
}
use netauto.Persistence.Locking.Plan
use netauto.Persistence.Database.{Database}
use netauto.Persistence.DataTypes as Store
use netauto.Persistence.UnitOfWork.{
  Tx, Session, enter, in_unit_of_work, pure, raise, execute, query, commit, require,
}
use netauto.Persistence.UnitOfWork as Uow
use netauto.Application.DataTypes.{
  acquire, begin_dml, require_draft, or_raise, header_key, version_key, not_found,
  version_not_found, referenced_version_not_found, state, is_draft, is_source, semantic,
}
use netauto.Application.DataTypes.Acquire.{acquire_pair, acquire_zero, acquire-header, if_absent}
use netauto.Application.DataTypes.Operations.{next_draft, blocking, classify_delete}
use netauto.Domain.Primitives.{PrimitiveValidationError, PrimitiveType}
use netauto.Domain.Value.{Value}

-- an outcome as what the caller gets, and the committed rows after it
abbrev pub settle {ℓ} :
    {A : Type ℓ} → Database → Result Failure (A × Database) → Result Failure A × Database
settle db (ok (a, db')) = (ok a, db')
settle db (err e) = (err e, db)

abbrev pub some_or {ℓ} : {A : Type ℓ} → Option A → Failure → Result Failure A
some_or none e = err e
some_or (some a) e = ok a

abbrev pub semantically {ℓ} : {A : Type ℓ} → Result PrimitiveValidationError A → Result Failure A
semantically (ok a) = ok a
semantically (err e) = err (semantic e)

abbrev pub positive : ℕ → Result Failure (Unit {0})
positive zero = err (lock positive_version_required)
positive (suc v) = ok tt

-- DRAFT, and at the expected revision
unfoldable pub draft_at : DataTypeVersion → ℕ → Result Failure (Unit {0})
unfolding is_draft
draft_at x n = do
  guard (is_draft x.status)
      (state Code.lifecycle_state_conflict (Details.exact_version x.datatype_id x.version))
  guard (x.revision == n) (state Code.stale_revision (Details.revisions n x.revision))

-- `create` from the unit of work on: the two inserts
unfoldable pub create_effect :
    DataType → DataTypeVersion → Database → Result Failure (Unit {0} × Database)
create_effect l x db = Store.create l x db

unfoldable pub create_next_effect :
    Uuid → ℕ → Database → Result Failure (DataTypeVersion × Database)
create_next_effect id v db = do
  positive v
  _ ← some_or (Store.get_lineage id db) (not_found id)
  x ← some_or (Store.get_version id v db) (referenced_version_not_found id v)
  guard (is_source x.status) (state Code.version_source_conflict (Details.source_version id v))
  let y = next_draft x id (Store.next_version id db)
  (_, db') ← Store.insert_version y db
  ok (y, db')

unfoldable pub revise_effect :
    (PrimitiveType → Value → Result PrimitiveValidationError Value)
    → Uuid
    → ℕ
    → ℕ
    → Value
    → Database
    → Result Failure (DataTypeVersion × Database)
revise_effect canonicalize id v n c db = do
  positive v
  _ ← some_or (Store.get_lineage id db) (not_found id)
  x ← some_or (Store.get_version id v db) (version_not_found id v)
  draft_at x n
  c' ← semantically (canonicalize x.base_type c)
  Store.revise id v c' db

unfoldable pub publish_effect :
    Uuid → ℕ → ℕ → Database → Result Failure (DataTypeVersion × Database)
publish_effect id v n db = do
  positive v
  l ← some_or (Store.get_lineage id db) (not_found id)
  x ← some_or (Store.get_version id v db) (version_not_found id v)
  draft_at x n
  (x', db₁) ← Store.set_status id v published db
  elim l.default_version [
    | none ↦ do (_, db₂) ← Store.set_default id (some v) db₁; ok (x', db₂)
    | some _ ↦ ok (x', db₁)
  ]

unfoldable pub set_default_effect : Uuid → ℕ → Database → Result Failure (DataType × Database)
set_default_effect id v db = do
  positive v
  _ ← some_or (Store.get_lineage id db) (not_found id)
  x ← some_or (Store.get_version id v db) (referenced_version_not_found id v)
  guard (Store.is_published x.status)
      (state Code.dependency_not_admissible (Details.exact_version id v))
  Store.set_default id (some v) db

unfoldable pub clear_default_effect : Uuid → Database → Result Failure (DataType × Database)
clear_default_effect id db = do
  _ ← some_or (Store.get_lineage id db) (not_found id)
  Store.set_default id none db

unfoldable pub deprecate_effect : Uuid → ℕ → Database → Result Failure (DataTypeVersion × Database)
deprecate_effect id v db = do
  positive v
  l ← some_or (Store.get_lineage id db) (not_found id)
  x ← some_or (Store.get_version id v db) (version_not_found id v)
  guard (Store.is_published x.status)
      (state Code.lifecycle_state_conflict (Details.exact_version id v))
  guard (not (option_beq l.default_version (some v)))
      (state Code.default_version_conflict (Details.exact_version id v))
  guard (not (Store.has_active_consumer id v db))
      (state Code.active_dependency_conflict (Details.exact_version id v))
  Store.set_status id v deprecated db

unfoldable pub delete_draft_effect : Uuid → ℕ → ℕ → Database → Result Failure (Unit {0} × Database)
delete_draft_effect id v n db = do
  positive v
  _ ← some_or (Store.get_lineage id db) (not_found id)
  x ← some_or (Store.get_version id v db) (version_not_found id v)
  draft_at x n
  Store.delete_draft id v db

unfoldable pub delete_lineage_effect : Uuid → Database → Result Failure (Unit {0} × Database)
delete_lineage_effect id db = do
  _ ← some_or (Store.get_lineage id db) (not_found id)
  let blockers = blocking (Store.external_reference_counts id db)
  guard (is_empty blockers) (state Code.delete_blocked (Details.blockers id blockers))
  classify_delete id (Store.delete_lineage id db)

unfoldable pub set_description_effect :
    Uuid → Option Text → Database → Result Failure (DataType × Database)
set_description_effect id d db = do
  _ ← some_or (Store.get_lineage id db) (not_found id)
  (l, db') ← Store.set_description id d db
  l' ← some_or l (not_found id)
  ok (l', db')
