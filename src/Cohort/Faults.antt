-- ===== src/Cohort/Faults.antt =====
-- The errors that `validate_semantics` collects, as values: where, and what was found.
use lazily_spec.Prelude.{ℕ, String, List}
unfoldable pub use lazily_spec.Prelude.Reports.{report, gather, each}

-- The label that a message begins with, by the indices in it.
pub data Label : Type 0 where
  binding : ℕ → Label
  toolchain module_range package_entry gate : ℕ → ℕ → Label
  artifact provenance registry : ℕ → ℕ → ℕ → Label
  spec profile : Label

pub data Fault : Type 0 where
  spec_commit spec_floating state_not_final profile_not_beta : Fault
  other_spec_commit absent_binding : String → Fault
  duplicate_ids : List String → Fault
  incomplete_cohort : List String → List String → Fault
  escapes_root missing_evidence : Label → String → Fault
  digest_mismatch : Label → String → String → String → Fault
  missing_checkout unreadable_head missing_tag : Label → Fault
  head_mismatch tag_mismatch : Label → String → Fault
  source_floating minimum_floating current_floating : Label → Fault
  other_spec_revision other_fixture_revision other_generation other_wire_version : Label → Fault
  inverted_range generation_outside : Label → Fault
  repeated_toolchain repeated_coordinate repeated_artifact : Label → Fault
  tag_not_version : Label → List String → Fault
  not_available not_passed : Label → Fault
  duplicate_gates : Label → List String → Fault
  other_gates : Label → List String → List String → Fault
  other_commit other_tag : Label → String → Fault
