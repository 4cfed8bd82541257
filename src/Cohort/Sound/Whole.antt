-- ===== src/Cohort/Sound/Whole.antt =====
-- Silence on the whole manifest.
use lazily_spec.Prelude.{
  ℕ, suc, true, false, not, ◌&&◌, List, [], ◌∷◌, map, ◌≡◌, arith, ◌==◌, string_eq, append-eq-nil,
  contains, All,
}
use lazily_spec.Cohort.Manifest.{
  Host, Options, Manifest, BindingEntry, is_floating, expected_bindings,
}
use lazily_spec.Cohort.Faults.{binding, spec, profile}
use lazily_spec.Cohort.Packages.{coordinate_key, has_coordinate, Seen}
use lazily_spec.Cohort.Binding.{revision_faults, same_set}
use lazily_spec.Cohort.Validate.{
  spec_faults, final_faults, binding_faults, bindings_from, validate_semantics,
}
use lazily_spec.Cohort.Silent.{
  report-silent, gather-silent, same_text, duplicates-Distinct, same_set-Within,
  verify_under-silent,
}
use lazily_spec.Cohort.Accepted.{
  BindingFinal, CohortFinal, cohort_files, cohort_coordinates, package_files,
}
use lazily_spec.Cohort.Sound.Seen.{
  Fresh, Fresh-append, Fresh-Distinct, Fresh-DistinctCoordinates, packages_from-Seen,
}
use lazily_spec.Cohort.Sound.Entries.{
  compatibility-silent, generation-silent, toolchains-silent, versions-silent, pin-silent,
  gates-silent, packages-silent,
}

abbrev no_seen : Seen
no_seen = record { coordinates = []; artifacts = [] }

revisions-silent :
    (host : Host) (m : Manifest) (at : ℕ) (b : BindingEntry)
    → revision_faults host m at b ≡ []
    → (is_floating host b.source.tag ≡ false)
      × (b.spec_revision ≡ m.conformance_revision)
      × (b.fixture_revision ≡ m.conformance_revision)
unfolding revision_faults
revisions-silent host m at b h =
    let (first, (second, (third, _))) = gather-silent _ h in
    (
      report-silent _ _ first,
      same_text _ _ (report-silent _ _ second),
      same_text _ _ (report-silent _ _ third),
    )

module _ (host : Host) (options : Options) (m : Manifest)
    (final : options.require_final ≡ true) where
  binding-silent :
      (at : ℕ) (seen : Seen) (b : BindingEntry)
      → (binding_faults host options m at seen b).0 ≡ []
      → Fresh has_coordinate seen.coordinates (map coordinate_key b.packages)
        × Fresh contains seen.artifacts (package_files b.packages)
        × BindingFinal host options m b
  unfolding binding_faults
  binding-silent at seen b h =
      let (
        revisions,
        (generation, (compatibility, (tools, (versions, (packages, (gates, (pin, _))))))),
      ) =
        gather-silent _ h in
      let (tag_fixed, spec_revision, fixture_revision) = revisions-silent host m at b revisions in
      let (core, modules) = compatibility-silent m at b compatibility in
      let (names, toolchains) = toolchains-silent host at 0 [] b.toolchains tools in
      let (versions, released) = versions-silent at b versions in
      let (keys, files, artifacts) =
        packages-silent host options final at 0 seen b.packages packages in
      let (distinct, needed, known, passed) = gates-silent host options final at b gates in
      (
        keys,
        files,
        record {
          tag_fixed = tag_fixed;
          spec_revision = spec_revision;
          fixture_revision = fixture_revision;
          generation = generation-silent m at b generation;
          core_api = core;
          modules = modules;
          toolchain_names = Fresh-Distinct [] (map (λ t. t.name) b.toolchains) names;
          toolchains = toolchains;
          versions = versions;
          released = released;
          artifacts = artifacts;
          gate_names = distinct;
          gates_needed = needed;
          gates_known = known;
          gates = passed;
          pinned = pin-silent host options.repo_root b.source (binding at) pin;
        },
      )

  bindings-silent :
      (at : ℕ) (seen : Seen) (bs : List BindingEntry)
      → bindings_from host options m at seen bs ≡ []
      → Fresh has_coordinate seen.coordinates (cohort_coordinates bs)
        × Fresh contains seen.artifacts (cohort_files bs)
        × All (BindingFinal host options m) bs
  unfolding bindings_from binding_faults
  bindings-silent at seen [] h = (tt, tt, tt)
  bindings-silent at seen (b ∷ bs) h =
      let (first, rest) =
        append-eq-nil (binding_faults host options m at seen b).0
          (bindings_from host options m (suc at) (binding_faults host options m at seen b).1 bs)
          h in
      let (keys, files, accepted) = binding-silent at seen b first in
      let (other_keys, other_files, others) =
        bindings-silent (suc at) _ bs
          (rw (packages_from-Seen host options at 0 seen b.packages) at rest) in
      (
        Fresh-append has_coordinate seen.coordinates (map coordinate_key b.packages)
            (cohort_coordinates bs) keys other_keys,
        Fresh-append contains seen.artifacts (package_files b.packages) (cohort_files bs) files
            other_files,
        (accepted, others),
      )

  -- With `--require-final`, a manifest without errors is a final cohort: its state and status say so,
  -- the nine bindings are there, each once, every tag and revision is fixed and the cohort's, each
  -- package has the tagged version, each gate is there once and has passed, every artifact is
  -- available, no coordinate or artifact file is listed twice, every file has its digest and lies
  -- under its root, and every checkout is at its pinned commit, where a root is given.
  pub validate_semantics_final : validate_semantics host options m ≡ [] → CohortFinal host options m
  unfolding validate_semantics spec_faults final_faults
  validate_semantics_final h =
      let ids = map (λ b. b.id) m.bindings in
      let (specs, (twice, (finals, (bindings, (_, (pin, (profile_file, _))))))) =
        gather-silent _ h in
      let (commit, (_, (fixed, _))) = gather-silent _ specs in
      let (state, (complete, (beta, _))) = gather-silent _ finals in
      let (keys, files, accepted) = bindings-silent 0 no_seen m.bindings bindings in
      let whole : not (same_set ids expected_bindings) ≡ false = rw final at (
        report-silent (options.require_final && not (same_set ids expected_bindings)) _ complete) in
      let (known, needed) = same_set-Within ids expected_bindings (ground arith) in
      record {
        spec_commit = same_text _ _ (report-silent _ _ commit);
        spec_fixed = report-silent _ _ fixed;
        state = same_text _ _ (
            rw final at
              (report-silent (options.require_final && not (m.state == "final")) _ state));
        beta = same_text _ _ (
            rw final at
              (report-silent (options.require_final && not (m.profile.status == "beta")) _ beta));
        ids_distinct = duplicates-Distinct ids (report-silent _ _ twice);
        ids_needed = needed;
        ids_known = known;
        bindings = accepted;
        coordinates = Fresh-DistinctCoordinates [] (cohort_coordinates m.bindings) keys;
        files = Fresh-Distinct [] (cohort_files m.bindings) files;
        spec_pinned = pin-silent host options.repo_root m.spec spec pin;
        profile = verify_under-silent host options.spec_root _ _ profile profile_file;
      }
