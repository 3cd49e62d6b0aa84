-- ===== src/Domain/DataTypes.antt =====
-- src/netauto/domain/datatypes.py. A version number and a revision are natural numbers.
use netauto.Prelude.{
  ℕ, Bool, not, ◌&&◌, ◌||◌, Option, ltb, Text, Uuid, codes, ◌==◌, ℕ_eq, list_beq, list_eq,
  option_eq, length, Result, ◌>>◌, guard,
}
use netauto.Domain.Value.{Value}
use netauto.Domain.Primitives.{PrimitiveType}
use netauto.Domain.Identifiers.{is_identifier, is_namespace, starts_with}

pub data VersionStatus : Type 0 where
  draft published deprecated : VersionStatus

pub record DataType : Type 0 where
  pub id : Uuid
  pub namespace : Text
  pub name : Text
  pub description : Option Text
  pub default_version : Option ℕ

pub record DataTypeVersion : Type 0 where
  pub datatype_id : Uuid
  pub version : ℕ
  pub revision : ℕ
  pub status : VersionStatus
  pub base_type : PrimitiveType
  pub constraints : Value

pub record DataTypeVersionSummary : Type 0 where
  pub datatype_id : Uuid
  pub version : ℕ
  pub revision : ℕ
  pub status : VersionStatus
  pub base_type : PrimitiveType

pub record CreateDataTypeResult : Type 0 where
  pub datatype : DataType
  pub version : DataTypeVersion

pub data NameError : Type 0 where
  invalid_qualified_name reserved_namespace : NameError

unfoldable pub validate_qualified_name : Text → Text → Bool → Result NameError (Unit {0})
unfolding is_namespace is_identifier starts_with list_beq
validate_qualified_name namespace name public = do
  guard
      (not
        (ltb 255 (length namespace) || (not (is_namespace namespace) || not (is_identifier name))))
      invalid_qualified_name
  guard (not (public && (namespace == codes "core" || starts_with namespace (codes "core."))))
      reserved_namespace
