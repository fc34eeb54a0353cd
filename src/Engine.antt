-- ===== src/Engine.antt =====
-- internal/engine: transactions over the manifests of several tables.
pub mod Commit
pub mod Recover
pub mod Logs
pub mod Quiet
pub mod Seen
pub mod SingleTable
pub mod CrossTable
pub mod DeleteOnly
pub mod AllTables
pub mod SegCache
pub mod Evict
