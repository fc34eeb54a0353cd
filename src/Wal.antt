-- ===== src/Wal.antt =====
-- internal/storage/wal.go: the write-ahead log as a file of page-padded frames.
pub mod Log
pub mod Frame
pub mod Replay
pub mod Torn
pub mod Append
pub mod TornHeader
pub mod TornPadding
pub mod Pending
