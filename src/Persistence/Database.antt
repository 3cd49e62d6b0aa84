-- ===== src/Persistence/Database.antt =====
-- The rows that the DataType capability reads and writes, src/netauto/persistence/metadata.py: its
-- own two tables, and of the two kinds of model consumers the property rows, with the exact
-- DataTypeVersion that they name, and the status of the version that declares them.
use netauto.Prelude.{ℕ, List, Uuid}
use netauto.Domain.DataTypes.{DataType, DataTypeVersion, VersionStatus}

pub record PropertyRow : Type 0 where
  pub owner_id : Uuid
  pub owner_version : ℕ
  pub datatype_id : Uuid
  pub datatype_version : ℕ

pub record OwnerVersionRow : Type 0 where
  pub owner_id : Uuid
  pub version : ℕ
  pub status : VersionStatus

pub record Database : Type 0 where
  pub datatypes : List DataType
  pub datatype_versions : List DataTypeVersion
  pub object_template_properties : List PropertyRow
  pub object_template_versions : List OwnerVersionRow
  pub relationship_definition_properties : List PropertyRow
  pub relationship_definition_versions : List OwnerVersionRow
