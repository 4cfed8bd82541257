-- ===== src/Wire.antt =====
-- scripts/wire_codegen.py: the wire model and its lowering to the languages' types.
pub mod Types
pub mod Model
pub mod Lowerable
pub mod Names
pub mod Kotlin
pub mod Constraints
pub mod Python
pub mod Build
pub mod Total
mod Examples
