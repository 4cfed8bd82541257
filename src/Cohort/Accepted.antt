-- ===== src/Cohort/Accepted.antt =====
-- What a final cohort is, said without the checks and their order.
use lazily_spec.Prelude.{
  ℕ, ◌≤◌, String, true, false, Option, none, some, List, [], ◌∷◌, ◌++◌, map, ◌≡◌, ◌⊎◌, string_eq,
  All,
}
use lazily_spec.Cohort.Manifest.{
  Host, Options, Manifest, BindingEntry, Package, Artifact, Gate, CoreRange, Toolchain, SourcePin,
  is_floating, expected_bindings, required_gates,
}
use lazily_spec.Cohort.Pins.{repository_name, tag_commit}
use lazily_spec.Cohort.Packages.{Coordinate, coordinate_key, has_coordinate}
use lazily_spec.Cohort.Binding.{version_tag}
use lazily_spec.Prelude.Distinct.{Distinct, Within}
use lazily_spec.Cohort.Silent.{EvidentUnder}

abbrev pub DistinctCoordinates : List Coordinate → Type 0
DistinctCoordinates [] = Unit
DistinctCoordinates (k ∷ ks) = (has_coordinate ks k ≡ false) × DistinctCoordinates ks

-- The checkout's HEAD and the tag are both the pinned commit.
pub record Pinned (host : Host) (root : String) (source : SourcePin) : Type 0 where
  pub present : host.has_git root (repository_name source.repository) ≡ true
  pub head :
      host.git_output root (repository_name source.repository) ("rev-parse" ∷ "HEAD" ∷ [])
      ≡ (0, source.commit)
  pub tagged :
      tag_commit host root (repository_name source.repository) source.tag ≡ (0, source.commit)

abbrev pub PinnedUnder : Host → Option String → SourcePin → Type 0
PinnedUnder host none source = Unit
PinnedUnder host (some root) source = Pinned host root source

abbrev pub artifact_files : List Artifact → List String
artifact_files = map λ a. a.file

abbrev pub package_files : List Package → List String
package_files [] = []
package_files (p ∷ ps) = artifact_files p.artifacts ++ package_files ps

abbrev pub cohort_files : List BindingEntry → List String
cohort_files [] = []
cohort_files (b ∷ bs) = package_files b.packages ++ cohort_files bs

abbrev pub cohort_coordinates : List BindingEntry → List Coordinate
cohort_coordinates [] = []
cohort_coordinates (b ∷ bs) = map coordinate_key b.packages ++ cohort_coordinates bs

pub record FixedToolchain (host : Host) (t : Toolchain) : Type 0 where
  pub minimum : is_floating host t.minimum ≡ false
  pub current : is_floating host t.current ≡ false

pub record Covers (generation : ℕ) (r : CoreRange) : Type 0 where
  pub above : r.minimum ≤ generation
  pub below : generation ≤ r.maximum

pub record ArtifactFinal (host : Host) (root : Option String) (a : Artifact) : Type 0 where
  pub available : a.registry.status ≡ "available"
  pub file : EvidentUnder host root a.file a.sha256
  pub provenance : EvidentUnder host root a.provenance.file a.provenance.sha256
  pub registry : EvidentUnder host root a.registry.metadata_file a.registry.metadata_sha256

pub record GateFinal (host : Host) (root : Option String) (g : Gate) : Type 0 where
  pub passed : g.status ≡ "passed"
  pub evidence : EvidentUnder host root g.evidence_file g.evidence_sha256

pub record BindingFinal (host : Host) (options : Options) (m : Manifest) (b : BindingEntry)
    : Type 0 where
  pub tag_fixed : is_floating host b.source.tag ≡ false
  pub spec_revision : b.spec_revision ≡ m.conformance_revision
  pub fixture_revision : b.fixture_revision ≡ m.conformance_revision
  pub generation :
      (b.profile ≡ "preview")
      ⊎ ((b.core_api_generation ≡ m.core_api_generation) × (b.wire_version ≡ m.wire_version))
  pub core_api : Covers m.core_api_generation b.core_api
  pub modules : All (Covers m.core_api_generation) b.module_ranges
  pub toolchain_names : Distinct (map (λ t. t.name) b.toolchains)
  pub toolchains : All (FixedToolchain host) b.toolchains
  pub versions : Within (b.source.tag ∷ []) (map version_tag (map (λ p. p.version) b.packages))
  pub released : Within (map version_tag (map (λ p. p.version) b.packages)) (b.source.tag ∷ [])
  pub artifacts : All (λ p. All (ArtifactFinal host options.artifact_root) p.artifacts) b.packages
  pub gate_names : Distinct (map (λ g. g.name) b.gates)
  pub gates_needed : Within (map (λ g. g.name) b.gates) required_gates
  pub gates_known : Within required_gates (map (λ g. g.name) b.gates)
  pub gates : All (GateFinal host options.artifact_root) b.gates
  pub pinned : PinnedUnder host options.repo_root b.source

pub record CohortFinal (host : Host) (options : Options) (m : Manifest) : Type 0 where
  pub spec_commit : m.spec.commit ≡ m.conformance_revision
  pub spec_fixed : is_floating host m.spec.tag ≡ false
  pub state : m.state ≡ "final"
  pub beta : m.profile.status ≡ "beta"
  pub ids_distinct : Distinct (map (λ b. b.id) m.bindings)
  pub ids_needed : Within (map (λ b. b.id) m.bindings) expected_bindings
  pub ids_known : Within expected_bindings (map (λ b. b.id) m.bindings)
  pub bindings : All (BindingFinal host options m) m.bindings
  pub coordinates : DistinctCoordinates (cohort_coordinates m.bindings)
  pub files : Distinct (cohort_files m.bindings)
  pub spec_pinned : PinnedUnder host options.repo_root m.spec
  pub profile : EvidentUnder host options.spec_root m.profile.registry_path m.profile.sha256
