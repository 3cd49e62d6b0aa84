-- ===== src/Application/DataTypes/Operations.antt =====
-- The state-changing methods of `DataTypeService`, src/netauto/application/datatypes.py, each in its
-- unit of work. A block that raises leaves the unit of work without a commit.
use netauto.Prelude.{
  ℕ, true, not, Option, none, some, List, [], ◌∷◌, ◌++◌, if◌then◌else◌, Text, Uuid, ◌==◌, ℕ_eq,
  option_beq, list_eq, option_eq, is_empty, contains, Result, ok, err,
}
use netauto.Domain.Value.{Value}
use netauto.Domain.Primitives.{PrimitiveType, PrimitiveValidationError, parse_primitive_type}
use netauto.Domain.DataTypes.{
  DataType, DataTypeVersion, draft, published, deprecated, CreateDataTypeResult,
  validate_qualified_name,
}
use netauto.Failures.{
  Failure, Code, Details, BlockerType, qualified_name_arbitration, delete_reference,
}
use netauto.Persistence.Locking.Keys.{RowLockMode, AdvisoryGate, key_eq}
use netauto.Persistence.Database.{Database}
use netauto.Persistence.DataTypes as Store
use netauto.Persistence.UnitOfWork.{
  Tx, pure, execute, query, require, commit, in_unit_of_work, ◌>>=◌, ◌>>◌,
}
use netauto.Application.DataTypes.{
  acquire, begin_dml, header, version, header_key, version_key, not_found, version_not_found,
  referenced_version_not_found, state, semantic, name_semantic, is_source, require_draft, or_raise,
  or_semantic,
}

unfoldable pub create_tx : DataType → DataTypeVersion → Tx (Unit {0})
create_tx lineage first = do
  (plan, missing) ← acquire [] none
  begin_dml plan
  execute (Store.create lineage first)
  commit

-- `except QualifiedNameArbitrationError`
unfoldable pub classify_create :
    Text
    → Text
    → CreateDataTypeResult
    → Result Failure (Unit {0})
    → Result Failure CreateDataTypeResult
classify_create namespace name result (ok _) = ok result
classify_create namespace name result (err qualified_name_arbitration) =
    err (state Code.qualified_name_conflict (Details.qualified_name namespace name))
classify_create namespace name result (err e) = err e

-- the lineage and the first version that `create` builds
abbrev pub new_lineage : Uuid → Text → Text → Option Text → DataType
new_lineage id namespace name description = record {
  id = id;
  namespace = namespace;
  name = name;
  description = description;
  default_version = none;
}

abbrev pub first_version : Uuid → PrimitiveType → Value → DataTypeVersion
first_version id primitive canonical = record {
  datatype_id = id;
  version = 1;
  revision = 1;
  status = draft;
  base_type = primitive;
  constraints = canonical;
}

-- `create` from the unit of work on
unfoldable pub create_validated :
    DataType → DataTypeVersion → Database → Result Failure CreateDataTypeResult × Database
unfolding classify_create
create_validated lineage first db =
    let (r, db') = in_unit_of_work (create_tx lineage first) db in
    (
      classify_create lineage.namespace lineage.name
          (record { datatype = lineage; version = first }) r,
      db',
    )

module _ (canonicalize : PrimitiveType → Value → Result PrimitiveValidationError Value) where
  -- the validation above the unit of work of `create`
  unfoldable pub validate_candidate :
      Text → Text → Text → Value → Result Failure (PrimitiveType × Value)
  unfolding validate_qualified_name parse_primitive_type name_semantic
  validate_candidate namespace name base_type constraints =
      elim (validate_qualified_name namespace name true) [
        | err e ↦ err (name_semantic e)
        | ok _ ↦ elim (parse_primitive_type base_type) [
          | err e ↦ err (semantic e)
          | ok primitive ↦ elim (canonicalize primitive constraints) [
            | err e ↦ err (semantic e)
            | ok canonical ↦ ok (primitive, canonical)
          ]
        ]
      ]

  unfoldable pub create :
      Uuid
      → Text
      → Text
      → Text
      → Option Text
      → Value
      → Database
      → Result Failure CreateDataTypeResult × Database
  unfolding validate_candidate
  create id namespace name base_type description constraints db =
      elim (validate_candidate namespace name base_type constraints) [
        | err e ↦ (err e, db)
        | ok (primitive, canonical) ↦
            create_validated (new_lineage id namespace name description)
              (first_version id primitive canonical) db
      ]

  unfoldable pub revise : Uuid → ℕ → ℕ → Value → Tx DataTypeVersion
  revise id v expected_revision constraints = do
    (plan, missing) ← acquire (header id RowLockMode.ks ∷ version id v RowLockMode.nku ∷ []) none
    require (not (contains missing (header_key id))) (not_found id)
    require (not (contains missing (version_key id v))) (version_not_found id v)
    found ← query (Store.get_version id v)
    current ← or_raise found (version_not_found id v)
    require_draft current expected_revision
    canonical ← or_semantic (canonicalize current.base_type constraints)
    begin_dml plan
    revised ← execute (Store.revise id v canonical)
    commit
    pure revised

-- the DRAFT that `create_next` inserts
abbrev pub next_draft : DataTypeVersion → Uuid → ℕ → DataTypeVersion
next_draft source id next = record {
  datatype_id = id;
  version = next;
  revision = 1;
  status = draft;
  base_type = source.base_type;
  constraints = source.constraints;
}

unfoldable pub create_next : Uuid → ℕ → Tx DataTypeVersion
create_next id source_version = do
  (plan, missing) ←
      acquire (header id RowLockMode.nku ∷ version id source_version RowLockMode.ks ∷ []) none
  require (not (contains missing (header_key id))) (not_found id)
  found ← query (Store.get_version id source_version)
  source ← or_raise found (referenced_version_not_found id source_version)
  require (is_source source.status)
      (state Code.version_source_conflict (Details.source_version id source_version))
  next ← query (Store.next_version id)
  let created = next_draft source id next
  begin_dml plan
  execute (Store.insert_version created)
  commit
  pure created

-- `if lineage.default_version is None`
unfoldable pub default_if_none : Uuid → DataType → ℕ → Tx (Unit {0})
default_if_none id lineage v = elim lineage.default_version [
  | none ↦ execute (Store.set_default id (some v)) >>= λ _. pure tt
  | some _ ↦ pure tt
]

unfoldable pub publish : Uuid → ℕ → ℕ → Tx DataTypeVersion
unfolding default_if_none
publish id v expected_revision = do
  (plan, missing) ← acquire (header id RowLockMode.nku ∷ version id v RowLockMode.nku ∷ []) none
  require (not (contains missing (header_key id))) (not_found id)
  require (not (contains missing (version_key id v))) (version_not_found id v)
  found_lineage ← query (Store.get_lineage id)
  found ← query (Store.get_version id v)
  lineage ← or_raise found_lineage (version_not_found id v)
  current ← or_raise found (version_not_found id v)
  require_draft current expected_revision
  begin_dml plan
  result ← execute (Store.set_status id v published)
  default_if_none id lineage v
  commit
  pure result

unfoldable pub set_default : Uuid → ℕ → Tx DataType
set_default id v = do
  (plan, missing) ← acquire (header id RowLockMode.nku ∷ version id v RowLockMode.s ∷ []) none
  require (not (contains missing (header_key id))) (not_found id)
  found ← query (Store.get_version id v)
  target ← or_raise found (referenced_version_not_found id v)
  require (Store.is_published target.status)
      (state Code.dependency_not_admissible (Details.exact_version id v))
  begin_dml plan
  lineage ← execute (Store.set_default id (some v))
  commit
  pure lineage

unfoldable pub clear_default : Uuid → Tx DataType
clear_default id = do
  (plan, missing) ← acquire (header id RowLockMode.nku ∷ []) none
  require (is_empty missing) (not_found id)
  begin_dml plan
  lineage ← execute (Store.set_default id none)
  commit
  pure lineage

unfoldable pub deprecate : Uuid → ℕ → Tx DataTypeVersion
deprecate id v = do
  (plan, missing) ← acquire (header id RowLockMode.s ∷ version id v RowLockMode.nku ∷ []) none
  require (not (contains missing (header_key id))) (not_found id)
  require (not (contains missing (version_key id v))) (version_not_found id v)
  found_lineage ← query (Store.get_lineage id)
  found ← query (Store.get_version id v)
  lineage ← or_raise found_lineage (version_not_found id v)
  current ← or_raise found (version_not_found id v)
  require (Store.is_published current.status)
      (state Code.lifecycle_state_conflict (Details.exact_version id v))
  require (not (option_beq lineage.default_version (some v)))
      (state Code.default_version_conflict (Details.exact_version id v))
  used ← query (Store.has_active_consumer id v)
  require (not used) (state Code.active_dependency_conflict (Details.exact_version id v))
  begin_dml plan
  result ← execute (Store.set_status id v deprecated)
  commit
  pure result

unfoldable pub delete_draft : Uuid → ℕ → ℕ → Tx (Unit {0})
delete_draft id v expected_revision = do
  (plan, missing) ← acquire (header id RowLockMode.nku ∷ version id v RowLockMode.u ∷ []) none
  require (not (contains missing (header_key id))) (not_found id)
  require (not (contains missing (version_key id v))) (version_not_found id v)
  found ← query (Store.get_version id v)
  current ← or_raise found (version_not_found id v)
  require_draft current expected_revision
  begin_dml plan
  execute (Store.delete_draft id v)
  commit

-- the list `blockers` of the counts that are not 0
unfoldable pub blocking : ℕ × ℕ → List (BlockerType × ℕ)
blocking (templates, relationships) =
    (if templates == 0 then [] else (BlockerType.object_template_property, templates) ∷ [])
    ++ (if relationships == 0
        then []
        else (BlockerType.relationship_definition_property, relationships) ∷ [])

-- `except DeleteReferenceError`
unfoldable pub classify_delete :
    Uuid → Result Failure (Unit {0} × Database) → Result Failure (Unit {0} × Database)
classify_delete id (err (delete_reference blocker)) =
    err (state Code.delete_blocked (Details.blockers id ((blocker, 1) ∷ [])))
classify_delete id r = r

unfoldable pub delete_lineage : Uuid → Tx (Unit {0})
unfolding blocking classify_delete
delete_lineage id = do
  (plan, missing) ←
      acquire (header id RowLockMode.u ∷ []) (some AdvisoryGate.model_root_delete_gate)
  require (is_empty missing) (not_found id)
  counts ← query (Store.external_reference_counts id)
  require (is_empty (blocking counts))
      (state Code.delete_blocked (Details.blockers id (blocking counts)))
  begin_dml plan
  execute (λ db. classify_delete id (Store.delete_lineage id db))
  commit

unfoldable pub set_description : Uuid → Option Text → Tx DataType
set_description id description = do
  (plan, missing) ← acquire (header id RowLockMode.nku ∷ []) none
  require (is_empty missing) (not_found id)
  begin_dml plan
  updated ← execute (Store.set_description id description)
  lineage ← or_raise updated (not_found id)
  commit
  pure lineage

-- The requests that change state, with the arguments of the methods.
pub data Request : Type 0 where
  create_request : Uuid → Text → Text → Text → Option Text → Value → Request
  create_next_request : Uuid → ℕ → Request
  revise_request : Uuid → ℕ → ℕ → Value → Request
  publish_request : Uuid → ℕ → ℕ → Request
  set_default_request : Uuid → ℕ → Request
  clear_default_request : Uuid → Request
  deprecate_request : Uuid → ℕ → Request
  delete_draft_request : Uuid → ℕ → ℕ → Request
  delete_lineage_request : Uuid → Request
  set_description_request : Uuid → Option Text → Request

pub data Reply : Type 0 where
  created : CreateDataTypeResult → Reply
  version_reply : DataTypeVersion → Reply
  lineage_reply : DataType → Reply
  done : Reply

unfoldable pub replying {ℓ} :
    {A : Type ℓ} → (A → Reply) → Result Failure A × Database → Result Failure Reply × Database
replying f (ok a, db) = (ok (f a), db)
replying f (err e, db) = (err e, db)

-- One request, on the committed rows.
module _ (canonicalize : PrimitiveType → Value → Result PrimitiveValidationError Value) where
  unfoldable pub serve : Request → Database → Result Failure Reply × Database
  unfolding replying
  serve (create_request id ns name base_type description c) db =
      replying created (create canonicalize id ns name base_type description c db)
  serve (create_next_request id v) db =
      replying version_reply (in_unit_of_work (create_next id v) db)
  serve (revise_request id v n c) db =
      replying version_reply (in_unit_of_work (revise canonicalize id v n c) db)
  serve (publish_request id v n) db = replying version_reply (in_unit_of_work (publish id v n) db)
  serve (set_default_request id v) db =
      replying lineage_reply (in_unit_of_work (set_default id v) db)
  serve (clear_default_request id) db =
      replying lineage_reply (in_unit_of_work (clear_default id) db)
  serve (deprecate_request id v) db = replying version_reply (in_unit_of_work (deprecate id v) db)
  serve (delete_draft_request id v n) db =
      replying (λ _. done) (in_unit_of_work (delete_draft id v n) db)
  serve (delete_lineage_request id) db =
      replying (λ _. done) (in_unit_of_work (delete_lineage id) db)
  serve (set_description_request id d) db =
      replying lineage_reply (in_unit_of_work (set_description id d) db)
