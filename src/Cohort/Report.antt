-- ===== src/Cohort/Report.antt =====
-- `build_report`, `render_markdown` and the exit status of `main`.
pub mod Sound
use lazily_spec.Prelude.{
  ℕ, String, Bool, true, false, List, [], ◌∷◌, ◌++◌, map, ◌==◌, string_eq, if◌then◌else◌,
}
use lazily_spec.Prelude.Texts.{◌+++◌}
use lazily_spec.Cohort.Manifest.{Host, Options, Manifest, BindingEntry, Package, Gate}
use lazily_spec.Cohort.Faults.{Fault}
use lazily_spec.Cohort.Validate.{validate_semantics}

pub record PackageRow : Type 0 where
  pub ecosystem : String
  pub coordinate : String
  pub version : String
  pub registry_statuses : List String

pub record Row : Type 0 where
  pub id : String
  pub profile : String
  pub core_api_generation : ℕ
  pub fixture_revision : String
  pub packages : List PackageRow
  pub api_status : String
  pub fixture_status : String
  pub package_status : String
  pub published_consumer_status : String

-- The errors are those of the run that is reported.
pub record Report (E : Type 0) : Type 0 where
  pub cohort_id : String
  pub state : String
  pub spec_revision : String
  pub status : String
  pub bindings : List Row
  pub errors : List E

-- gate_status.get(name, ...), where a later gate of the name replaces an earlier one
unfoldable pub status_from : String → String → List Gate → String
status_from found name [] = found
status_from found name (g ∷ gs) = status_from (if g.name == name then g.status else found) name gs

unfoldable pub gate_status : String → List Gate → String
unfolding status_from
gate_status name gates = status_from "missing" name gates

abbrev pub package_row : Package → PackageRow
package_row p = record {
  ecosystem = p.ecosystem;
  coordinate = p.coordinate;
  version = p.version;
  registry_statuses = map (λ a. a.registry.status) p.artifacts;
}

unfoldable pub row : BindingEntry → Row
row b = record {
  id = b.id;
  profile = b.profile;
  core_api_generation = b.core_api_generation;
  fixture_revision = b.fixture_revision;
  packages = map package_row b.packages;
  api_status = gate_status "api" b.gates;
  fixture_status = gate_status "fixture" b.gates;
  package_status = gate_status "package" b.gates;
  published_consumer_status = gate_status "published_consumer" b.gates;
}

abbrev pub is_nil {ℓ} : {A : Type ℓ} → List A → Bool
is_nil [] = true
is_nil (x ∷ xs) = false

unfoldable pub build_report : {E : Type 0} → Manifest → List E → Report E
unfolding row
build_report m errors = record {
  cohort_id = m.cohort_id;
  state = m.state;
  spec_revision = m.conformance_revision;
  status = if is_nil errors then "passed" else "failed";
  bindings = map row m.bindings;
  errors = errors;
}

-- separator.join(parts)
unfoldable pub join : String → List String → String
join separator [] = ""
join separator (part ∷ []) = part
join separator (part ∷ rest) = part +++ separator +++ join separator rest

abbrev package_cell : PackageRow → String
package_cell p = p.ecosystem +++ ":" +++ p.coordinate +++ "@" +++ p.version

unfoldable pub row_line : Row → String
unfolding join
row_line b =
    "| "
    +++ b.id
    +++ " | "
    +++ b.profile
    +++ " | "
    +++ b.api_status
    +++ " | "
    +++ b.fixture_status
    +++ " | "
    +++ b.package_status
    +++ " | "
    +++ b.published_consumer_status
    +++ " | "
    +++ join ", " (map package_cell b.packages)
    +++ " |"

abbrev error_lines : List String → List String
error_lines [] = []
error_lines (e ∷ es) = "" ∷ "## Errors" ∷ "" ∷ map (λ error. "- " +++ error) (e ∷ es)

-- The errors are written by the function that is given.
unfoldable pub render_markdown : {E : Type 0} → (E → String) → Report E → String
unfolding join row_line
render_markdown message report =
    join "\n" (
      ("# Lazily Core cohort `" +++ report.cohort_id +++ "`")
      ∷ ""
      ∷ ("Status: **" +++ report.status +++ "**  ")
      ∷ ("State: `" +++ report.state +++ "`  ")
      ∷ ("Spec revision: `" +++ report.spec_revision +++ "`")
      ∷ ""
      ∷ "| Binding | Profile | API | Fixture | Package | Published consumer | Packages |"
      ∷ "| --- | --- | --- | --- | --- | --- | --- |"
      ∷ (map row_line report.bindings ++ error_lines (map message report.errors)))
    +++ "\n"

-- What is read: no document, one that its schema refuses, or one that it accepts.
pub data Loaded : Type 0 where
  unreadable : Loaded
  refused : String → List String → Loaded
  accepted : Manifest → Loaded

unfoldable pub main : Host → Options → Loaded → ℕ
main host options unreadable = 2
main host options (refused error errors) = 1
main host options (accepted m) = if is_nil (validate_semantics host options m) then 0 else 1

-- The report that `main` writes of an accepted document.
unfoldable pub main_report : Host → Options → Manifest → Report Fault
unfolding build_report
main_report host options m = build_report m (validate_semantics host options m)
