-- ===== src/Application.antt =====
-- The application layer, src/netauto/application: the semantic operations.
pub mod DataTypes
