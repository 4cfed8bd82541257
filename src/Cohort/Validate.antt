-- ===== src/Cohort/Validate.antt =====
-- `validate_semantics`.
use lazily_spec.Prelude.{
  ℕ, suc, String, not, ◌&&◌, none, some, List, [], ◌∷◌, ◌++◌, map, ◌==◌, string_eq, any,
}
use lazily_spec.Prelude.Sorted.{sorted}
use lazily_spec.Cohort.Manifest.{
  Host, Options, Manifest, BindingEntry, expected_bindings, is_floating,
}
use lazily_spec.Cohort.Faults.{
  binding, spec, profile, Fault, spec_commit, spec_floating, state_not_final, profile_not_beta,
  other_spec_commit, absent_binding, duplicate_ids, incomplete_cohort, report, gather,
}
use lazily_spec.Cohort.Evidence.{verify_under}
use lazily_spec.Cohort.Pins.{verify_pin_under}
use lazily_spec.Cohort.Binding.{
  revision_faults, generation_faults, compatibility_faults, toolchains_from, same_set,
  version_faults, differs, is_expected, expected_faults,
}
use lazily_spec.Cohort.Packages.{Seen, packages_from}
use lazily_spec.Cohort.Gates.{without, is_nil, duplicates, gates_faults}

unfoldable pub spec_faults : Host → Options → Manifest → List Fault
unfolding differs is_floating
spec_faults host options m = gather (
    report (not (m.spec.commit == m.conformance_revision)) spec_commit
    ∷ report (differs options.expected_spec_commit m.spec.commit) (other_spec_commit m.spec.commit)
    ∷ report (is_floating host m.spec.tag) spec_floating
    ∷ [])

unfoldable pub final_faults : Options → Manifest → List String → List Fault
unfolding same_set without sorted
final_faults options m ids =
    let final = options.require_final in
    gather (
      report (final && not (m.state == "final")) state_not_final
      ∷ report (final && not (same_set ids expected_bindings)) (
          incomplete_cohort (sorted (without ids expected_bindings))
            (sorted (without expected_bindings ids)))
      ∷ report (final && not (m.profile.status == "beta")) profile_not_beta
      ∷ [])

-- One round of the loop over the bindings.
unfoldable pub binding_faults :
    Host → Options → Manifest → ℕ → Seen → BindingEntry → List Fault × Seen
unfolding revision_faults generation_faults compatibility_faults toolchains_from version_faults
    packages_from gates_faults verify_pin_under expected_faults
binding_faults host options m at seen b =
    let (faults, seen') = packages_from host options at 0 seen b.packages in
    (
      gather (
          revision_faults host m at b
          ∷ generation_faults m at b
          ∷ compatibility_faults m at b
          ∷ toolchains_from host at 0 [] b.toolchains
          ∷ version_faults at b
          ∷ faults
          ∷ gates_faults host options at b
          ∷ verify_pin_under host options.repo_root b.source (binding at)
          ∷ expected_faults options at b
          ∷ []),
      seen',
    )

unfoldable pub bindings_from : Host → Options → Manifest → ℕ → Seen → List BindingEntry → List Fault
unfolding binding_faults
bindings_from host options m at seen [] = []
bindings_from host options m at seen (b ∷ rest) =
    let (faults, seen') = binding_faults host options m at seen b in
    faults ++ bindings_from host options m (suc at) seen' rest

unfoldable pub absence_faults : Options → Manifest → List Fault
unfolding is_expected
absence_faults options m = elim options.expected_binding [
  | none ↦ []
  | some id ↦ report (not (any (λ b. id == b.id) m.bindings)) (absent_binding id)
]

unfoldable pub validate_semantics : Host → Options → Manifest → List Fault
unfolding spec_faults final_faults duplicates bindings_from absence_faults verify_pin_under
    verify_under
validate_semantics host options m =
    let ids = map (λ b. b.id) m.bindings in
    gather (
      spec_faults host options m
      ∷ report (not (is_nil (duplicates ids))) (duplicate_ids (duplicates ids))
      ∷ final_faults options m ids
      ∷ bindings_from host options m 0 (record { coordinates = []; artifacts = [] }) m.bindings
      ∷ absence_faults options m
      ∷ verify_pin_under host options.repo_root m.spec spec
      ∷ verify_under host options.spec_root m.profile.registry_path m.profile.sha256 profile
      ∷ [])
