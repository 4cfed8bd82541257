-- ===== src/Stores.antt =====
-- The check of the SQLite store registry: scripts/check-sqlite-stores.py.
pub mod Registry
pub mod Identifier
pub mod Scan
pub mod Check
pub mod Run
pub mod Sound
mod Examples
