-- ===== src/Storage.antt =====
-- internal/storage: the wire format of a segment file.
pub mod Wire
pub mod PageEntry
pub mod Fields
pub mod Reads
pub mod Predicate
pub mod Prune
pub mod PruneLeaves
pub mod Stats
pub mod PruneSound
pub mod SegmentSound
pub mod EncodedFor
pub mod EncodedRows
pub mod EncodedSound
