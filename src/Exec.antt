-- ===== src/Exec.antt =====
-- internal/exec: the operators of a query.
pub mod Limit
pub mod Window
pub mod Batches
pub mod Drained
