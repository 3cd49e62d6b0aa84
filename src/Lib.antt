-- ===== src/Lib.antt =====
-- NETAUTO: a model of the semantic kernel of src/netauto, and its correctness.
--
-- The program keeps models (DataTypes, ObjectTemplates, RelationshipDefinitions) and the objects
-- and relationships made from them in PostgreSQL. A request reaches a service of the application
-- layer; the service validates it with the pure functions of the domain layer, opens a unit of
-- work, plans and acquires the row locks that it needs, reads the protected rows, checks its
-- guards, begins DML, changes rows through a store of the persistence layer and commits. A block
-- that raises leaves the unit of work, which rolls back.
--
-- What is modelled, from the bottom up:
-- Domain/Value, Domain/Primitives, Domain/Identifiers, Domain/DataTypes: JSON values, the
--   primitive types and their parser, the identifier patterns, the DataType records and
--   `validate_qualified_name`, of src/netauto/domain/primitives.py and datatypes.py.
-- Domain/Errors: the validation errors of the next three, with the path as the list of its parts.
-- Domain/ObjectTemplates: src/netauto/domain/objecttemplates.py; Declarations is about
--   `validate_local_declarations`, Effective about `resolve_effective_schema`.
-- Domain/Objects: src/netauto/domain/objects.py, `migrate_properties` in Migration; Lookup is
--   about `canonicalize_properties`, Changed about `apply_data_change`, Migrated about the migration,
--   Stores about the loops that they share.
-- Domain/Lineage: the walks on the inheritance lineages of src/netauto/domain/relationships.py; the
--   rest of that module is Domain/Relationships: the validation of definitions there, constructors
--   and renames in Changes, `first_conflict` and `semantic_signature` in Conflicts, the factual rows
--   in Closure, the read views in Views, `migrate_relationship_properties` in Migration. A Python set
--   of tuples is the ascending list of its members. Accepted, History, Constructed, Renamed,
--   Migrated, Conflicts/Symmetric and the children of Closure hold proofs.
-- Failures: src/netauto/failures.py with the codes and details that the DataType capability
--   raises, and the exceptions of the persistence layer. Exceptions are values of a result type;
--   messages are left out.
-- Persistence/Locking: src/netauto/persistence/locking.py. Keys holds the modes, classes, ranks
--   and `RowLockKey`; Coalesce is `_coalesce`; Ancestry is `_object_template_order`; Canonical is
--   `_canonical_intents`; Plan is `LockPlan` with `acquire_advisory_gate` and `acquire_lock_plan`,
--   over a connection that holds its lock phase and the locks that were requested on it; Loader is
--   `load_object_template_ancestry` with `prepare_lock_plan`; Classify is
--   `classify_postgresql_failure`; Attempts is `run_semantic_uow_attempts`.
-- Persistence/UnitOfWork: `UnitOfWork` of src/netauto/persistence/uow.py, as a session with the
--   committed rows, the rows that the transaction sees and the connection. Operations are functions
--   from a session to a result and a session.
-- Persistence/Database, Persistence/DataTypes: the tables of src/netauto/persistence/metadata.py
--   that the DataType capability uses, and each statement of `DataTypeStore` of
--   src/netauto/persistence/datatypes.py, with the constraints that it can violate; Admission holds
--   its single-row locks and admissions, Pages its `list_versions`.
-- Persistence/Lifecycle: src/netauto/persistence/lifecycle.py, its events and the JSON of states;
--   Events has the rows and their decoding, Checks the CHECK constraints of their table, Inserts the
--   inserts of intrinsic and ownership events, Transitions the insert of a Relationship's events;
--   Snapshot, Recorded and Kept hold proofs. JSON that the database returns has string keys.
-- Application/DataTypes: `DataTypeService` of src/netauto/application/datatypes.py. Operations
--   has one function for each state-changing method, in the order of its source, and `serve`, which
--   runs one request. Effects says what each comes to without locks and units of work; Invariant,
--   Names and History prove over these effects what holds of the rows. Pages is `list_versions`, with
--   a cursor as the key that it carries.
--
-- UUIDs are natural numbers, which order them as `UUID.int` does; `uuid4()` is an argument. A text
-- is the list of its code points. Version numbers and revisions are natural numbers, as the checks
-- of the tables make them; the inserts and the revision of a version refuse one that is past the
-- range of its column.
--
-- Parameters: `canonicalize_constraints` is a parameter of `DataTypeService`, and `validate_value`
-- of the functions on property values; `str` of a UUID and its parser are parameters of the
-- lifecycle codec; whether a locked row exists is PostgreSQL's answer, a parameter of the
-- acquisition which the service fills with its rows; the rows that the recursive ancestry statement
-- returns are a parameter of the loader.
--
-- Fuel: the walk up from a lineage in Ancestry has one unit more than the mapping has entries, and
-- each round adds a new key of the mapping to the set of seen lineages. The main loop of
-- `_object_template_order` has one unit for each lineage, and the walk of the loader one more than
-- there are loaded rows. The walks of Domain/Lineage have one unit more than the mapping has keys.
--
-- Not modelled: the text of SQL statements, the interleaving of two transactions (one runs at a
-- time, which is what the row locks secure for the rows they protect), `list_lineages`, the codec
-- of cursors, the values and constraints of the primitive types, the lists of lifecycle events, the
-- ObjectTemplate, Object and Relationship services, the HTTP and CLI layers, settings, migrations.
pub mod Prelude
pub mod Domain
pub mod Failures
pub mod Persistence
pub mod Application
