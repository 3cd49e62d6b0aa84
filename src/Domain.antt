-- ===== src/Domain.antt =====
-- The domain layer, src/netauto/domain: plain values and their semantics.
pub mod Value
pub mod Identifiers
pub mod Primitives
pub mod DataTypes
pub mod Errors
pub mod Lineage
pub mod ObjectTemplates
pub mod Relationships
pub mod Objects
mod Tests
mod PropertyTests
