-- ===== src/Cohort/Binding.antt =====
-- The checks of one binding that need nothing of the others.
use lazily_spec.Prelude.{
  ℕ, suc, String, Bool, false, not, ◌&&◌, Option, none, some, List, [], ◌∷◌, ◌++◌, map, ◌==◌,
  nat_eq, string_eq, ltb, leb, all, contains,
}
use lazily_spec.Prelude.Sorted.{sorted}
use lazily_spec.Cohort.Manifest.{
  Host, Options, Manifest, BindingEntry, Toolchain, CoreRange, is_floating,
}
use lazily_spec.Cohort.Faults.{
  Label, binding, toolchain, module_range, Fault, source_floating, other_spec_revision,
  other_fixture_revision, other_generation, other_wire_version, inverted_range, generation_outside,
  repeated_toolchain, minimum_floating, current_floating, tag_not_version, other_commit, other_tag,
  report, gather, each,
}

unfoldable pub revision_faults : Host → Manifest → ℕ → BindingEntry → List Fault
unfolding is_floating
revision_faults host m at b = gather (
    report (is_floating host b.source.tag) (source_floating (binding at))
    ∷ report (not (b.spec_revision == m.conformance_revision)) (other_spec_revision (binding at))
    ∷ report (not (b.fixture_revision == m.conformance_revision))
        (other_fixture_revision (binding at))
    ∷ [])

unfoldable pub generation_faults : Manifest → ℕ → BindingEntry → List Fault
generation_faults m at b =
    let stable = not (b.profile == "preview") in
    report (stable && not (b.core_api_generation == m.core_api_generation))
      (other_generation (binding at))
    ++ report (stable && not (b.wire_version == m.wire_version)) (other_wire_version (binding at))

unfoldable pub range_faults : ℕ → Label → CoreRange → List Fault
range_faults generation label r =
    report (ltb r.maximum r.minimum) (inverted_range label)
    ++ report (not (leb r.minimum generation && leb generation r.maximum))
        (generation_outside label)

unfoldable pub compatibility_faults : Manifest → ℕ → BindingEntry → List Fault
unfolding range_faults
compatibility_faults m at b =
    range_faults m.core_api_generation (binding at) b.core_api
    ++ each 0 (λ i r. range_faults m.core_api_generation (module_range at i) r) b.module_ranges

unfoldable pub toolchains_from : Host → ℕ → ℕ → List String → List Toolchain → List Fault
unfolding is_floating
toolchains_from host at i names [] = []
toolchains_from host at i names (t ∷ rest) = gather (
    report (contains names t.name) (repeated_toolchain (toolchain at i))
    ∷ report (is_floating host t.minimum) (minimum_floating (toolchain at i))
    ∷ report (is_floating host t.current) (current_floating (toolchain at i))
    ∷ toolchains_from host at (suc i) (t.name ∷ names) rest
    ∷ [])

-- The equality of two sets.
unfoldable pub same_set : List String → List String → Bool
same_set xs ys = all (contains ys) xs && all (contains xs) ys

abbrev pub version_tag : String → String
version_tag version = String.◌∷◌ "v" version

unfoldable pub version_faults : ℕ → BindingEntry → List Fault
unfolding same_set sorted
version_faults at b =
    let versions = map (λ p. p.version) b.packages in
    report (not (same_set (map version_tag versions) (b.source.tag ∷ [])))
      (tag_not_version (binding at) (sorted versions))

-- expected is not None and actual != expected
unfoldable pub differs : Option String → String → Bool
differs none actual = false
differs (some expected) actual = not (actual == expected)

-- expected == actual, where the expected one may be None
unfoldable pub is_expected : Option String → String → Bool
is_expected none actual = false
is_expected (some expected) actual = expected == actual

unfoldable pub expected_faults : Options → ℕ → BindingEntry → List Fault
unfolding is_expected differs
expected_faults options at b =
    let here = is_expected options.expected_binding b.id in
    report (here && differs options.expected_commit b.source.commit)
      (other_commit (binding at) b.source.commit)
    ++ report (here && differs options.expected_tag b.source.tag)
        (other_tag (binding at) b.source.tag)
