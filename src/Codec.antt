-- ===== src/Codec.antt =====
-- internal/storage/codec: the page codecs for integers.
pub mod Bitpack
pub mod Transpose
pub mod Planes
pub mod Packed
pub mod Kinds
pub mod Spans
pub mod For
pub mod ForBack
pub mod ForTrip
pub mod Sequence
pub mod Delta
pub mod DeltaTrip
pub mod DeltaDecode
