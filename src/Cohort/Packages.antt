-- ===== src/Cohort/Packages.antt =====
-- The packages of one binding and their artifacts, with what the earlier ones have left in
-- `seen_coordinates` and `seen_artifacts`.
use lazily_spec.Prelude.{
  ℕ, suc, String, Bool, false, not, ◌&&◌, ◌||◌, List, [], ◌∷◌, ◌++◌, ◌==◌, string_eq, contains,
}
use lazily_spec.Cohort.Manifest.{Host, Options, Artifact, Package}
use lazily_spec.Cohort.Faults.{
  package_entry, artifact, provenance, registry, Fault, repeated_coordinate, repeated_artifact,
  not_available, report, gather,
}
use lazily_spec.Cohort.Evidence.{verify_under}

abbrev pub Coordinate : Type 0
Coordinate = String × String

abbrev pub coordinate_key : Package → Coordinate
coordinate_key p = (p.ecosystem, p.coordinate)

unfoldable pub has_coordinate : List Coordinate → Coordinate → Bool
has_coordinate [] key = false
has_coordinate (k ∷ ks) key = key.0 == k.0 && key.1 == k.1 || has_coordinate ks key

pub record Seen : Type 0 where
  pub coordinates : List Coordinate
  pub artifacts : List String

abbrev pub add_coordinate : Coordinate → Seen → Seen
add_coordinate key seen = record seen { coordinates = key ∷ seen.coordinates }

abbrev pub add_artifact : String → Seen → Seen
add_artifact file seen = record seen { artifacts = file ∷ seen.artifacts }

unfoldable pub artifact_faults : Host → Options → ℕ → ℕ → ℕ → Seen → Artifact → List Fault
unfolding verify_under
artifact_faults host options at i k seen a =
    let root = options.artifact_root in
    gather (
      report (contains seen.artifacts a.file) (repeated_artifact (artifact at i k))
      ∷ report (options.require_final && not (a.registry.status == "available"))
          (not_available (artifact at i k))
      ∷ verify_under host root a.file a.sha256 (artifact at i k)
      ∷ verify_under host root a.provenance.file a.provenance.sha256 (provenance at i k)
      ∷ verify_under host root a.registry.metadata_file a.registry.metadata_sha256 (registry at i k)
      ∷ [])

unfoldable pub artifacts_from :
    Host → Options → ℕ → ℕ → ℕ → Seen → List Artifact → List Fault × Seen
unfolding artifact_faults
artifacts_from host options at i k seen [] = ([], seen)
artifacts_from host options at i k seen (a ∷ rest) =
    let (faults, seen') =
      artifacts_from host options at i (suc k) (add_artifact a.file seen) rest in
    (artifact_faults host options at i k seen a ++ faults, seen')

unfoldable pub packages_from : Host → Options → ℕ → ℕ → Seen → List Package → List Fault × Seen
unfolding artifacts_from has_coordinate
packages_from host options at i seen [] = ([], seen)
packages_from host options at i seen (p ∷ rest) =
    let key = coordinate_key p in
    let (faults, seen') =
      artifacts_from host options at i 0 (add_coordinate key seen) p.artifacts in
    let (others, seen'') = packages_from host options at (suc i) seen' rest in
    (
      gather (
          report (has_coordinate seen.coordinates key) (repeated_coordinate (package_entry at i))
          ∷ faults
          ∷ others
          ∷ []),
      seen'',
    )
