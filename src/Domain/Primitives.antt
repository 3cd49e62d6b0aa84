-- ===== src/Domain/Primitives.antt =====
-- The primitive types of src/netauto/domain/primitives.py.
use netauto.Prelude.{
  if◌then◌else◌, Text, codes, ◌==◌, ℕ_eq, list_beq, list_eq, option_eq, Result, ok, err,
}

pub data PrimitiveType : Type 0 where
  string integer number boolean date datetime ip ip_prefix byte_size : PrimitiveType

pub record PrimitiveValidationError : Type 0 where
  pub path : Text
  pub rule : Text

unfoldable pub parse_primitive_type : Text → Result PrimitiveValidationError PrimitiveType
unfolding list_beq
parse_primitive_type value =
    if value == codes "core.string"
    then ok string
    else if value == codes "core.integer"
    then ok integer
    else if value == codes "core.number"
    then ok number
    else if value == codes "core.boolean"
    then ok boolean
    else if value == codes "core.date"
    then ok date
    else if value == codes "core.datetime"
    then ok datetime
    else if value == codes "core.ip"
    then ok ip
    else if value == codes "core.ip_prefix"
    then ok ip_prefix
    else if value == codes "core.byte_size"
    then ok byte_size
    else err (record { path = codes "base_type"; rule = codes "unsupported_primitive" })
