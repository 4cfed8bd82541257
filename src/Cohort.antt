-- ===== src/Cohort.antt =====
-- scripts/verify_core_cohort.py: the relationships that a release cohort's manifest has to satisfy.
pub mod Manifest
pub mod Faults
pub mod Evidence
pub mod Pins
pub mod Binding
pub mod Packages
pub mod Gates
pub mod Validate
pub mod Silent
pub mod Accepted
pub mod Sound
pub mod Report
mod Examples
