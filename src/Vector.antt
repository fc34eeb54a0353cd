-- ===== src/Vector.antt =====
-- internal/vector: what the operators pass on.
pub mod Selection
pub mod Ranges
