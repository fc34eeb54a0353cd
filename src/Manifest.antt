-- ===== src/Manifest.antt =====
-- internal/storage/manifest.go: the append-only record of the segments that make up a table.
pub mod Records
pub mod Resolve
pub mod Handle
pub mod TimeTravel
pub mod Effects
pub mod Append
