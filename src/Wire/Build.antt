-- ===== src/Wire/Build.antt =====
-- `_SurfaceBuilder` of scripts/wire_codegen.py: how a schema's nodes become declarations.
pub mod Monad
pub mod Nodes
pub mod Declare
pub mod Union
pub mod Surface
pub mod Rules
pub mod Grows
pub mod Queue
pub mod Returns
pub mod Accepted
mod Examples
