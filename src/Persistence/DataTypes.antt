-- ===== src/Persistence/DataTypes.antt =====
-- `DataTypeStore` of src/netauto/persistence/datatypes.py: the rows that each statement returns,
-- changes or refuses to change. The constraints of src/netauto/persistence/metadata.py that these
-- statements can violate are written out: primary and unique keys, foreign keys with their cascade, and the columns and CHECK
-- constraints of the rows that are inserted.
-- Where two are violated, the first in this text is reported.
pub mod Rows
pub mod Numbers
pub mod Pages
pub mod Admission
use netauto.Prelude.{
  ℕ, ◌+◌, max, Bool, true, false, not, ◌&&◌, ◌||◌, Option, none, some, List, [], ◌∷◌, ◌++◌, ltb,
  leb, if◌then◌else◌, is_some, Text, Uuid, ◌==◌, ℕ_eq, list_beq, option_beq, list_eq, option_eq,
  length, find, any, keep, Result, ok, err, ◌>>=◌, ◌>>◌, guard,
}
use netauto.Domain.Identifiers.{is_identifier, is_namespace}
use netauto.Domain.Value.{Value, dict}
use netauto.Domain.DataTypes.{
  DataType, DataTypeVersion, VersionStatus, draft, published, deprecated,
}
use netauto.Failures.{
  Failure, Constraint, integrity, no_result, qualified_name_arbitration, delete_reference,
  BlockerType, out_of_range,
}
use netauto.Persistence.Database.{Database, PropertyRow, OwnerVersionRow}

abbrev pub has_id : Uuid → DataType → Bool
has_id id l = l.id == id

abbrev pub has_key : Uuid → ℕ → DataTypeVersion → Bool
has_key id version v = v.datatype_id == id && v.version == version

abbrev pub has_name : Text → Text → DataType → Bool
has_name namespace name l = list_beq l.namespace namespace && list_beq l.name name

-- `UPDATE ... WHERE p`
unfoldable pub update_where {ℓ} : {A : Type ℓ} → (A → Bool) → (A → A) → List A → List A
update_where p f [] = []
update_where p f (x ∷ xs) = (if p x then f x else x) ∷ update_where p f xs

unfoldable pub get_lineage : Uuid → Database → Option DataType
unfolding find
get_lineage id db = find (has_id id) db.datatypes

unfoldable pub get_version : Uuid → ℕ → Database → Option DataTypeVersion
unfolding find
get_version id version db = find (has_key id version) db.datatype_versions

-- the CHECK constraints of `datatypes` on a lineage without default, in the order of their names
unfoldable pub check_lineage : DataType → Result Failure (Unit {0})
unfolding is_identifier is_namespace
check_lineage l = do
  guard (is_identifier l.name) (integrity Constraint.ck_datatypes_name)
  guard (leb (length l.namespace) 255 && is_namespace l.namespace)
      (integrity Constraint.ck_datatypes_namespace)

-- the primary key and the unique name
unfoldable pub insert_header : DataType → Database → Result Failure (Unit {0} × Database)
unfolding any
insert_header l db =
    if any (has_id l.id) db.datatypes
    then err (integrity Constraint.datatypes_pkey)
    else if any (has_name l.namespace l.name) db.datatypes
    then err (integrity Constraint.uq_datatypes_namespace_name)
    else ok (tt, record db { datatypes = db.datatypes ++ record l { default_version = none } ∷ [] })

-- the first statement of `create`
unfoldable pub insert_lineage : DataType → Database → Result Failure (Unit {0} × Database)
unfolding check_lineage insert_header
insert_lineage l db = do check_lineage l; insert_header l db

unfoldable pub is_object : Value → Bool
is_object (dict fields) = true
is_object _ = false

-- the largest number of a PostgreSQL `Integer`
abbrev pub integer_max : ℕ
integer_max = 2147483647

-- The columns and the CHECK constraints of `datatype_versions`, in the order of their names. Status and
-- base type are of their enumerations.
unfoldable pub check_version : DataTypeVersion → Result Failure (Unit {0})
unfolding is_object
check_version v = do
  guard (leb v.version integer_max && leb v.revision integer_max) out_of_range
  guard (is_object v.constraints) (integrity Constraint.ck_datatype_versions_constraints_object)
  guard (ltb 0 v.revision) (integrity Constraint.ck_datatype_versions_revision_positive)
  guard (ltb 0 v.version) (integrity Constraint.ck_datatype_versions_version_positive)

-- the primary key and the foreign key
unfoldable pub insert_row : DataTypeVersion → Database → Result Failure (Unit {0} × Database)
unfolding any
insert_row v db =
    if any (has_key v.datatype_id v.version) db.datatype_versions
    then err (integrity Constraint.datatype_versions_pkey)
    else if any (has_id v.datatype_id) db.datatypes
    then ok (tt, record db { datatype_versions = db.datatype_versions ++ v ∷ [] })
    else err (integrity Constraint.fk_datatype_versions_datatype)

unfoldable pub insert_version : DataTypeVersion → Database → Result Failure (Unit {0} × Database)
unfolding check_version insert_row
insert_version v db = do check_version v; insert_row v db

-- `except IntegrityError` of `create`
unfoldable pub classify_create :
    Result Failure (Unit {0} × Database) → Result Failure (Unit {0} × Database)
classify_create (err (integrity Constraint.uq_datatypes_namespace_name)) =
    err qualified_name_arbitration
classify_create r = r

unfoldable pub create : DataType → DataTypeVersion → Database → Result Failure (Unit {0} × Database)
unfolding insert_lineage insert_version classify_create
create l v db = classify_create (do (_, db') ← insert_lineage l db; insert_version v db')

-- `func.max(version)` over the lineage
unfoldable pub max_version : Uuid → List DataTypeVersion → Option ℕ
max_version id [] = none
max_version id (v ∷ vs) =
    let rest = max_version id vs in
    if v.datatype_id == id
    then (elim rest [ none ↦ some v.version | some m ↦ some (max v.version m) ])
    else rest

unfoldable pub next_version : Uuid → Database → ℕ
unfolding max_version
next_version id db = elim (max_version id db.datatype_versions) [ none ↦ 1 | some m ↦ m + 1 ]

-- an `UPDATE` of one version with `RETURNING` and `.one()`
unfoldable pub update_version :
    Uuid
    → ℕ
    → (DataTypeVersion → DataTypeVersion)
    → Database
    → Result Failure (DataTypeVersion × Database)
unfolding get_version update_where
update_version id version f db = elim (get_version id version db) [
  | none ↦ err no_result
  | some v ↦ ok (
    f v,
    record db { datatype_versions = update_where (has_key id version) f db.datatype_versions },
  )
]

abbrev pub revised : Value → DataTypeVersion → DataTypeVersion
revised constraints v = record v { constraints = constraints; revision = v.revision + 1 }

-- the columns and the CHECK constraints of the row as it is revised
unfoldable pub check_revised : Uuid → ℕ → Value → Database → Result Failure (Unit {0})
unfolding get_version check_version
check_revised id version constraints db = elim (get_version id version db) [
  | none ↦ ok tt
  | some v ↦ check_version (revised constraints v)
]

unfoldable pub revise : Uuid → ℕ → Value → Database → Result Failure (DataTypeVersion × Database)
unfolding check_revised update_version
revise id version constraints db = do
  check_revised id version constraints db
  update_version id version (revised constraints) db

unfoldable pub set_status :
    Uuid → ℕ → VersionStatus → Database → Result Failure (DataTypeVersion × Database)
unfolding update_version
set_status id version status = update_version id version (λ v. record v { status = status })

-- the foreign key from a default to its version
unfoldable pub default_exists : Uuid → Option ℕ → Database → Bool
unfolding get_version
default_exists id none db = true
default_exists id (some version) db = is_some (get_version id version db)

unfoldable pub set_default : Uuid → Option ℕ → Database → Result Failure (DataType × Database)
unfolding get_lineage default_exists update_where
set_default id version db = elim (get_lineage id db) [
  | none ↦ err no_result
  | some l ↦
      if default_exists id version db
      then ok (
        record l { default_version = version },
        record db {
          datatypes =
              update_where (has_id id) (λ x. record x { default_version = version }) db.datatypes;
        },
      )
      else err (integrity Constraint.fk_datatypes_default_version)
]

-- `.first()`: no row is `None`
unfoldable pub set_description :
    Uuid → Option Text → Database → Result Failure (Option DataType × Database)
unfolding get_lineage update_where
set_description id description db = elim (get_lineage id db) [
  | none ↦ ok (none, db)
  | some l ↦ ok (
    some (record l { description = description }),
    record db {
      datatypes =
          update_where (has_id id) (λ x. record x { description = description }) db.datatypes;
    },
  )
]

abbrev pub names_version : Uuid → ℕ → PropertyRow → Bool
names_version id version p = p.datatype_id == id && p.datatype_version == version

unfoldable pub is_published : VersionStatus → Bool
is_published published = true
is_published _ = false

-- a PUBLISHED version row that a property row joins
abbrev pub declares : PropertyRow → OwnerVersionRow → Bool
declares p o = p.owner_id == o.owner_id && (p.owner_version == o.version && is_published o.status)

unfoldable pub has_active_consumer : Uuid → ℕ → Database → Bool
unfolding any is_published
has_active_consumer id version db =
    any (λ p. names_version id version p && any (declares p) db.object_template_versions)
      db.object_template_properties
    || any (λ p. names_version id version p && any (declares p) db.relationship_definition_versions)
        db.relationship_definition_properties

-- `external_reference_counts`: ObjectTemplate properties, and RelationshipDefinition properties
unfoldable pub external_reference_counts : Uuid → Database → ℕ × ℕ
unfolding keep
external_reference_counts id db = (
  length (keep (λ p. p.datatype_id == id) db.object_template_properties),
  length (keep (λ p. p.datatype_id == id) db.relationship_definition_properties),
)

unfoldable pub delete_draft : Uuid → ℕ → Database → Result Failure (Unit {0} × Database)
unfolding any keep
delete_draft id version db =
    if any (λ l. l.id == id && option_beq l.default_version (some version)) db.datatypes
    then err (integrity Constraint.fk_datatypes_default_version)
    else if any (names_version id version) db.object_template_properties
    then err (integrity Constraint.fk_object_template_properties_datatype_version)
    else if any (names_version id version) db.relationship_definition_properties
    then err (integrity Constraint.fk_relationship_definition_properties_datatype_version)
    else ok (
      tt,
      record db { datatype_versions = keep (λ v. not (has_key id version v)) db.datatype_versions },
    )

-- the two statements of `delete_lineage` with its `except IntegrityError`: the default is cleared,
-- and the delete cascades to the versions, unless a property row names one of them
unfoldable pub delete_lineage : Uuid → Database → Result Failure (Unit {0} × Database)
unfolding any keep update_where
delete_lineage id db =
    let cleared =
      update_where (has_id id) (λ l. record l { default_version = none }) db.datatypes in
    if any (λ p. p.datatype_id == id) db.object_template_properties
    then err (delete_reference BlockerType.object_template_property)
    else if any (λ p. p.datatype_id == id) db.relationship_definition_properties
    then err (delete_reference BlockerType.relationship_definition_property)
    else ok (
      tt,
      record db {
        datatypes = keep (λ l. not (has_id id l)) cleared;
        datatype_versions = keep (λ v. not (v.datatype_id == id)) db.datatype_versions;
      },
    )
