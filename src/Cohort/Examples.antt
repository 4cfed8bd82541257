-- ===== src/Cohort/Examples.antt =====
-- A final cohort of nine bindings, and what `validate_semantics` says of it.
use lazily_spec.Prelude.{String, true, false, some, [], ◌∷◌, map, ◌≡◌, refl}
use lazily_spec.Prelude.Texts.{starts_with, has_char, ends_with}
use lazily_spec.Cohort.Manifest.{
  Host, Options, Manifest, BindingEntry, Package, Artifact, Gate, SourcePin, CoreRange, Toolchain,
  expected_bindings, required_gates,
}
use lazily_spec.Cohort.Faults.{state_not_final, report, gather}
use lazily_spec.Cohort.Validate.{validate_semantics}
use lazily_spec.Prelude.{All}
use lazily_spec.Cohort.Report.{accepted, main, main_report, render_markdown, join}
use lazily_spec.Cohort.Report.Sound.{RowPassed, main_final}
use lazily_spec.Cohort.Accepted.{CohortFinal}
use lazily_spec.Cohort.Sound.Whole.{validate_semantics_final}

abbrev host : Host
host = record {
  strip_lower = λ s. s;
  resolve = λ root. root ∷ [];
  resolve_under = λ root relative. root ∷ relative ∷ [];
  is_file = λ path. true;
  sha256_file = λ path. "d";
  has_git = λ root repo. true;
  git_output = λ root repo arguments. (0, "c");
}

abbrev options : Options
options = record {
  artifact_root = some "evidence";
  repo_root = some "repos";
  spec_root = some "spec";
  require_publish_ready = false;
  require_final = true;
  expected_spec_commit = some "c";
  expected_binding = some "zig";
  expected_commit = some "c";
  expected_tag = some "v1.0.0";
}

abbrev pin : SourcePin
pin = record { repository = "https://github.com/lazily-hub/x.git/"; commit = "c"; tag = "v1.0.0" }

abbrev range : CoreRange
range = record { minimum = 1; maximum = 2 }

abbrev tool : Toolchain
tool = record { name = "compiler"; minimum = "1.2"; current = "1.3" }

abbrev artifact_of : String → Artifact
artifact_of id = record {
  file = id;
  sha256 = "d";
  provenance = record { file = "p"; sha256 = "d" };
  registry = record { status = "available"; metadata_file = "m"; metadata_sha256 = "d" };
}

abbrev package_of : String → Package
package_of id = record {
  ecosystem = "e";
  coordinate = id;
  version = "1.0.0";
  artifacts = artifact_of id ∷ [];
}

abbrev passed_gate : String → Gate
passed_gate name = record {
  name = name;
  status = "passed";
  evidence_file = "g";
  evidence_sha256 = "d";
}

abbrev binding_of : String → BindingEntry
binding_of id = record {
  id = id;
  profile = "stable";
  source = pin;
  spec_revision = "c";
  fixture_revision = "c";
  core_api_generation = 1;
  wire_version = "1.0";
  toolchains = tool ∷ [];
  packages = package_of id ∷ [];
  gates = map passed_gate required_gates;
  core_api = range;
  module_ranges = range ∷ [];
}

abbrev cohort : Manifest
cohort = record {
  cohort_id = "core-1";
  state = "final";
  profile = record { status = "beta"; registry_path = "r"; sha256 = "d" };
  spec = pin;
  conformance_revision = "c";
  core_api_generation = 1;
  wire_version = "1.0";
  bindings = map binding_of expected_bindings;
}

cohort_passes : validate_semantics host options cohort ≡ []
unfolding validate_semantics report gather starts_with has_char ends_with
cohort_passes = refl

draft_fails :
    validate_semantics host options (record cohort { state = "draft" }) ≡ state_not_final ∷ []
unfolding validate_semantics report gather starts_with has_char ends_with
draft_fails = refl

validate_semantics_final_example : CohortFinal host options cohort
validate_semantics_final_example = validate_semantics_final host options cohort refl cohort_passes

cohort_accepted : main host options (accepted cohort) ≡ 0
unfolding main validate_semantics report gather starts_with has_char ends_with
cohort_accepted = refl

main_final_example :
    CohortFinal host options cohort
    × ((main_report host options cohort).status ≡ "passed")
    × ((main_report host options cohort).errors ≡ [])
    × All RowPassed (main_report host options cohort).bindings
main_final_example = main_final host options cohort refl cohort_accepted

-- A report without bindings, as Markdown.
short_report :
    render_markdown
      (λ e. e)
      (record {
        cohort_id = "c";
        state = "draft";
        spec_revision = "r";
        status = "failed";
        bindings = [];
        errors = "late" ∷ [];
      })
    ≡ "# Lazily Core cohort `c`\n\nStatus: **failed**  \nState: `draft`  \nSpec revision: `r`\n\n| Binding | Profile | API | Fixture | Package | Published consumer | Packages |\n| --- | --- | --- | --- | --- | --- | --- |\n\n## Errors\n\n- late\n"
unfolding render_markdown join
short_report = refl
