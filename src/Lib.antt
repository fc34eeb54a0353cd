-- ===== src/Lib.antt =====
-- A model of the core of dripsql, with proofs.
--
-- dripsql is a columnar SQL engine. Its tables are segment files; a manifest per table, a file of
-- records, says which segments are live at which version; a write-ahead log holds the transactions
-- that are being committed. The files of this library follow that:
--
-- - Base: numbers, Boolean tests, lists, text as bytes, Go's maps as association lists (Base/Dict),
--   little-endian words and files (Base/Bytes), and hash/crc32's ChecksumIEEE (Base/Crc).
-- - Wal, internal/storage/wal.go. Wal/Log has the log as a file, a handle and a size, with OpenWAL,
--   replay, readFrame, append, truncate and TruncateToHeader; I/O errors are an argument, `Faults`.
--   Wal/Pending has the records for a manifest and PendingTxns and PendingTxnGroups.
--   Wal/Frame, Wal/Replay, Wal/Torn, Wal/Append, Wal/TornHeader and Wal/TornPadding are the
--   proofs.
-- - Manifest, internal/storage/manifest.go. Manifest/Records, Manifest/Resolve and Manifest/Handle
--   have the records, resolveLockedFiltered, and Snapshot, At, SnapshotAt, Commit and Retire,
--   on the records in memory; Manifest/Append has appendRecord with the file, its I/O errors and the
--   rollback, and their proof. Manifest/TimeTravel and Manifest/Effects are the other proofs.
-- - Engine, internal/engine. Engine/Commit has Tx.Commit and commitManifestTxnAs (tx.go, wal.go) as a
--   list of durable steps, so that a crash is a prefix of it; Engine/Recover has openWAL and
--   recoverTxnGroup; Engine/SegCache has the cache of segcache.go. Engine/Logs, Engine/Quiet,
--   Engine/Seen, Engine/AllTables, Engine/SingleTable, Engine/CrossTable, Engine/DeleteOnly and Engine/Evict are
--   the proofs.
-- - Schema, internal/schema: NormalizeName (Schema/Names), type.go (Schema/Types), encoding.go
--   (Schema/Encodings), and the Validate methods and the names of the options of schema.go
--   (Schema/Specs, Schema/OptionNames). Schema/Normal, Schema/TypeForm and Schema/SpecsValid are
--   proofs.
-- - Storage, internal/storage/wire.go: Storage/Wire, with proofs in Storage/PageEntry,
--   Storage/Fields and Storage/Reads. internal/storage/predicate.go: Storage/Predicate has bound
--   predicates, what they select of a row, and the columns and statistics of a segment, and
--   Storage/Prune has PruneSegment, PrunePage and the tests for whole pages. Storage/PruneLeaves,
--   Storage/PruneSound and Storage/SegmentSound are proofs. Storage/EncodedFor has the comparisons on
--   pages in frame of reference, with proofs in Storage/EncodedRows and Storage/EncodedSound, and
--   Storage/Stats has the statistics of int64 columns, internal/storage/stats.go, with their proof.
-- - Catalog, internal/catalog: the types of types.go (Catalog/File) and Validate of validate.go
--   (Catalog/Validate), with proofs in Catalog/Sound.
-- - Codec, internal/storage/codec: bitpack.go (Codec/Bitpack), for_bitpack.go (Codec/For, with the
--   loops over a page's values in Codec/Spans and the physical kinds of internal/vector/veckind.go in
--   Codec/Kinds), delta_bitpack.go (Codec/Delta) and sequence.go (Codec/Sequence). Codec/Transpose,
--   Codec/Planes, Codec/Packed, Codec/ForBack, Codec/ForTrip, Codec/DeltaTrip and Codec/DeltaDecode
--   are proofs. Go's integers are 64-bit patterns (Base/Int64) and shifts and `|` are on numbers
--   (Base/Bits).
-- - Sql, internal/sql: lexer.go (Sql/Lexer, Sql/Scanners) and the token window of parser.go
--   (Sql/Parser). Sql/Progress, Sql/Operators, Sql/Idents, Sql/Total, Sql/Next, Sql/Tokens,
--   Sql/Lookahead and Sql/Taken are proofs.
-- - Vector, internal/vector: selection.go's ranges and Limit (Vector/Selection). Exec, internal/exec:
--   limit.go (Exec/Limit), over batches whose rows are a list. Vector/Ranges, Exec/Window,
--   Exec/Batches and Exec/Drained are proofs. A word of a mask is its 64 bits.
-- - Tests: the theorems at concrete inputs.
--
-- Loops: replay has fuel, the bytes that are left and one, and each turn reads at least a page;
-- evictExcept has the entries of the cache as fuel, and each turn but the last takes one away.
-- The lexer's loops have the bytes that are left and one, and each turn takes at least one.
-- encoding/json is a parameter, `Json`, with the hypothesis that Unmarshal reads what Marshal wrote.
-- Text is ASCII bytes, but in the lexer, where unicode and utf8 are the record `Unicode`. The log
-- of Engine is the list of the records that Wal/Replay shows a log file to give back, and a step of
-- a commit is durable or has not happened; Wal/Append shows that of a log append. A transaction's
-- tables come in the order of Go's iteration over the map, which is an argument.
--
-- Not modelled: locks, the text of the errors, the format of the manifest's lines and its recovery,
-- the layout of segments, deletion vectors and sidecars beyond their paths and filters, the other
-- codecs and the choice among them, predicates on pages encoded otherwise, the SQL grammar and
-- planner, and the executor but for LIMIT; there the source of the batches does not fail.
pub mod Base
pub mod Schema
pub mod Wal
pub mod Manifest
pub mod Sql
pub mod Storage
pub mod Catalog
pub mod Codec
pub mod Engine
pub mod Vector
pub mod Exec
pub mod Tests
