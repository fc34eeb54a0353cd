-- ===== src/Schema.antt =====
-- internal/schema: names and types.
pub mod Names
pub mod Normal
pub mod Types
pub mod TypeForm
pub mod Encodings
pub mod Specs
pub mod SpecsValid
pub mod OptionNames
