-- ===== src/Blocks.antt =====
-- scripts/gen_assertion_block_schema.py: the schema that is inferred from the assertion blocks of the
-- conformance fixtures.
pub mod Json
pub mod Routes
pub mod Infer
pub mod Accepts
pub mod Members
pub mod Keys
pub mod Sound
pub mod Walk
mod Examples
