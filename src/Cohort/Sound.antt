-- ===== src/Cohort/Sound.antt =====
-- `validate_semantics` is silent on final cohorts only.
pub mod Seen
pub mod Entries
pub mod Whole
