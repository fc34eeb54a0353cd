-- ===== src/Catalog.antt =====
-- internal/catalog: the persisted catalog.
pub mod File
pub mod Validate
pub mod Sound
