-- ===== src/Persistence.antt =====
-- The persistence layer, src/netauto/persistence.
pub mod Locking
pub mod Database
pub mod UnitOfWork
pub mod DataTypes
pub mod Lifecycle
