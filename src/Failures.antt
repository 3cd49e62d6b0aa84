-- ===== src/Failures.antt =====
-- The exceptions that cross the layers: `ApplicationFailure` of src/netauto/failures.py with its
-- code and details, and those that the persistence layer raises. A message is fixed by the code and
-- the place of the raise, and is left out.
use netauto.Prelude.{ℕ, List, Text, Uuid}
use netauto.Persistence.Locking.Keys.{LockError}

pub data FailureClass : Type 0 where
  invalid_request not_found semantic_validation state_conflict internal_failure : FailureClass

pub data Code : Type 0 where
  resource_not_found referenced_resource_not_found semantic_validation_failed : Code
  qualified_name_conflict version_source_conflict dependency_not_admissible : Code
  lifecycle_state_conflict stale_revision default_version_conflict : Code
  active_dependency_conflict delete_blocked : Code

pub data BlockerType : Type 0 where
  object_template_property relationship_definition_property : BlockerType

-- the `details` dict, one constructor for each shape
pub data Details : Type 0 where
  datatype : Uuid → Details
  datatype_version : Uuid → ℕ → Details
  violation : Text → Text → Details
  qualified_name : Text → Text → Details
  source_version : Uuid → ℕ → Details
  exact_version : Uuid → ℕ → Details
  revisions : ℕ → ℕ → Details
  blockers : Uuid → List (BlockerType × ℕ) → Details

-- the database constraints whose violation the DataType statements can raise
pub data Constraint : Type 0 where
  datatypes_pkey uq_datatypes_namespace_name datatype_versions_pkey : Constraint
  fk_datatype_versions_datatype fk_datatypes_default_version : Constraint
  ck_datatypes_name ck_datatypes_namespace : Constraint
  ck_datatype_versions_constraints_object : Constraint
  ck_datatype_versions_revision_positive ck_datatype_versions_version_positive : Constraint
  fk_object_template_properties_datatype_version : Constraint
  fk_relationship_definition_properties_datatype_version : Constraint

pub data Failure : Type 0 where
  application : FailureClass → Code → Details → Failure
  qualified_name_arbitration : Failure
  delete_reference : BlockerType → Failure
  integrity : Constraint → Failure
  -- a number that the `Integer` column does not hold
  out_of_range : Failure
  -- `.one()` on an empty result
  no_result : Failure
  lock : LockError → Failure
  -- the `RuntimeError` of `UnitOfWork.commit`
  no_active_transaction : Failure
