-- ===== src/Tests.antt =====
-- The theorems at concrete inputs.
pub mod Logs
pub mod Manifests
pub mod Transactions
pub mod Schemas
pub mod Wires
pub mod Caches
pub mod Catalogs
pub mod Lexers
pub mod Codecs
pub mod Predicates
pub mod Encoded
pub mod Limits
