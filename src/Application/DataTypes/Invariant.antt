-- ===== src/Application/DataTypes/Invariant.antt =====
-- The invariant of the DataType rows.
pub mod Versions
pub mod Lineages
pub mod Kept
pub mod Served
pub mod Requests
pub mod Admitted
use netauto.Prelude.{
  ℕ, ◌<◌, ◌≡◌, refl, Bool, true, false, not, ◌&&◌, none, some, List, [], ◌∷◌, is_some, Uuid, any,
}
use netauto.Domain.Value.{Value}
use netauto.Domain.DataTypes.{
  DataType, DataTypeVersion, VersionStatus, draft, published, deprecated,
}
use netauto.Failures.{Failure}
use netauto.Persistence.Database.{Database}
use netauto.Persistence.DataTypes as Store
use netauto.Persistence.DataTypes.{has_id, has_key, has_name, update_where}
use netauto.Persistence.DataTypes.Rows.{
  KeepsKey, KeepsId, find-update_version, find-update_lineage, find-append_version,
  find-append_lineage, find-drop_version, find-drop_versions, find-drop_lineage, any-update_name,
  map_option,
}

-- no two lineages have one qualified name
abbrev pub distinct_names : List DataType → Bool
distinct_names [] = true
distinct_names (l ∷ ls) = not (any (has_name l.namespace l.name) ls) && distinct_names ls

abbrev pub published_at : Uuid → ℕ → Database → Bool
published_at id v db = elim (Store.get_version id v db) [
  | none ↦ false
  | some x ↦ Store.is_published x.status
]

-- Qualified names are unique; a default names a PUBLISHED version of its lineage; a version belongs
-- to a lineage and has a positive number and revision.
pub record IsSound (db : Database) : Type 0 where
  pub names : distinct_names db.datatypes ≡ true
  pub default_published :
      (id : Uuid) (l : DataType) (v : ℕ)
      → Store.get_lineage id db ≡ some l
      → l.default_version ≡ some v
      → published_at id v db ≡ true
  pub owned :
      (id : Uuid) (v : ℕ) (x : DataTypeVersion)
      → Store.get_version id v db ≡ some x
      → is_some (Store.get_lineage id db) ≡ true
  pub positive :
      (id : Uuid) (v : ℕ) (x : DataTypeVersion)
      → Store.get_version id v db ≡ some x
      → (0 < v) × (0 < x.revision)

-- the rows with other versions, and with other lineages
abbrev pub with_versions : Database → List DataTypeVersion → Database
with_versions db vs = record db { datatype_versions = vs }

abbrev pub with_lineages : Database → List DataType → Database
with_lineages db ls = record db { datatypes = ls }

pub same_lineage :
    (j : Uuid) (db : Database) (vs : List DataTypeVersion)
    → Store.get_lineage j (with_versions db vs) ≡ Store.get_lineage j db
unfolding Store.get_lineage
same_lineage j db vs = refl

pub same_version :
    (j w : ℕ) (db : Database) (ls : List DataType)
    → Store.get_version j w (with_lineages db ls) ≡ Store.get_version j w db
unfolding Store.get_version
same_version j w db ls = refl
