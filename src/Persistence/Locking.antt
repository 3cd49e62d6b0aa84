-- ===== src/Persistence/Locking.antt =====
-- Lock planning, src/netauto/persistence/locking.py.
pub mod Keys
pub mod Coalesce
pub mod Ancestry
pub mod Canonical
pub mod Plan
pub mod Attempts
pub mod Loader
pub mod Classify
mod Tests
