-- ===== src/Ordering.antt =====
-- The order of anchors in the assertion runners: scripts/check-assertion-ordering.py.
pub mod Check
pub mod Checks
pub mod Run
pub mod Sound
mod Examples
mod CompanionExample
