-- ===== src/Cohort/Sound/Entries.antt =====
-- Silence on one binding, and on what stands in it.
use lazily_spec.Prelude.{
  ℕ, suc, String, true, false, not, ◌&&◌, Option, none, some, List, [], ◌∷◌, map, ◌≡◌, arith, ◌==◌,
  nat_eq, nat_beq_iff, string_eq, eq_iff, Bool-cases, inl, inr, ◌⊎◌, leb, append-eq-nil, contains,
  All,
}
use lazily_spec.Cohort.Manifest.{
  Host, Options, Manifest, BindingEntry, Package, Artifact, Gate, CoreRange, Toolchain, SourcePin,
  required_gates,
}
use lazily_spec.Cohort.Faults.{
  Label, Fault, binding, module_range, gate, generation_outside, unreadable_head, head_mismatch,
  missing_tag, tag_mismatch, artifact, provenance, registry,
}
use lazily_spec.Cohort.Pins.{repository_name, verify_source_pin, verify_pin_under, against}
use lazily_spec.Cohort.Gates.{must_pass, gate_set_faults, gate_faults, gates_faults}
use lazily_spec.Cohort.Packages.{
  coordinate_key, has_coordinate, Seen, artifact_faults, artifacts_from, packages_from,
  add_coordinate, add_artifact,
}
use lazily_spec.Cohort.Binding.{
  range_faults, compatibility_faults, generation_faults, toolchains_from, version_faults,
  version_tag,
}
use lazily_spec.Prelude.Distinct.{Distinct, Within}
use lazily_spec.Cohort.Silent.{
  report-silent, gather-silent, same_text, each-silent, duplicates-Distinct, without-Within,
  sorted-is_nil, same_set-Within, verify_under-silent,
}
use lazily_spec.Cohort.Accepted.{
  PinnedUnder, artifact_files, package_files, FixedToolchain, Covers, ArtifactFinal, GateFinal,
}
use lazily_spec.Cohort.Sound.Seen.{Fresh, Fresh-append, artifacts_from-Seen}

range_faults-silent :
    (generation : ℕ) (label : Label) (r : CoreRange)
    → range_faults generation label r ≡ []
    → Covers generation r
unfolding range_faults
range_faults-silent generation label r h =
    let (ordered, rest) = append-eq-nil _ _ h in
    let inside =
      report-silent (not (leb r.minimum generation && leb generation r.maximum))
        (generation_outside label) rest in
    record { above = ground arith; below = ground arith }

pub compatibility-silent :
    (m : Manifest) (at : ℕ) (b : BindingEntry)
    → compatibility_faults m at b ≡ []
    → Covers m.core_api_generation b.core_api × All (Covers m.core_api_generation) b.module_ranges
unfolding compatibility_faults
compatibility-silent m at b h =
    let (core, modules) = append-eq-nil _ _ h in
    (
      range_faults-silent m.core_api_generation (binding at) b.core_api core,
      each-silent (Covers m.core_api_generation) _
          (λ i r. range_faults-silent m.core_api_generation (module_range at i) r) 0 b.module_ranges
          modules,
    )

same_number : (a b : ℕ) → not (a == b) ≡ false → a ≡ b
same_number a b h = ground arith

pub generation-silent :
    (m : Manifest) (at : ℕ) (b : BindingEntry)
    → generation_faults m at b ≡ []
    → (b.profile ≡ "preview")
      ⊎ ((b.core_api_generation ≡ m.core_api_generation) × (b.wire_version ≡ m.wire_version))
unfolding generation_faults
generation-silent m at b h =
    let (first, second) = append-eq-nil _ _ h in
    let core = report-silent _ _ first in
    let wire = report-silent _ _ second in
    elim (Bool-cases (b.profile == "preview")) [
      | inl e ↦ inl ((eq_iff _ _).0 e)
      | inr e ↦ inr (same_number _ _ (rw e at core), same_text _ _ (rw e at wire))
    ]

pub toolchains-silent :
    (host : Host) (at i : ℕ) (names : List String) (ts : List Toolchain)
    → toolchains_from host at i names ts ≡ []
    → Fresh contains names (map (λ t. t.name) ts) × All (FixedToolchain host) ts
unfolding toolchains_from
toolchains-silent host at i names [] h = (tt, tt)
toolchains-silent host at i names (t ∷ ts) h =
    let (first, (second, (third, (rest, _)))) = gather-silent _ h in
    let (fresh, fixed) = toolchains-silent host at (suc i) (t.name ∷ names) ts rest in
    (
      (report-silent _ _ first, fresh),
      (record { minimum = report-silent _ _ second; current = report-silent _ _ third }, fixed),
    )

pub versions-silent :
    (at : ℕ) (b : BindingEntry)
    → version_faults at b ≡ []
    → Within (b.source.tag ∷ []) (map version_tag (map (λ p. p.version) b.packages))
      × Within (map version_tag (map (λ p. p.version) b.packages)) (b.source.tag ∷ [])
unfolding version_faults
versions-silent at b h =
    let same = report-silent _ _ h in
    same_set-Within (map version_tag (map (λ p. p.version) b.packages)) (b.source.tag ∷ [])
      (ground arith)

against-silent :
    (commit : String) (r : ℕ × String) (failed : Fault) (mismatch : String → Fault)
    → against commit r failed mismatch ≡ []
    → r ≡ (0, commit)
unfolding against
against-silent commit (exit, out) failed mismatch h = elim (Bool-cases (exit == 0)) [
  | inr e ↦ cc (rw (e, against) at h)
  | inl e ↦
      let text : out ≡ commit = same_text out commit (report-silent _ _ (rw (e, against) at h)) in
      let code : exit ≡ 0 = (nat_beq_iff exit 0).0 e in rw (text, code)
]

pub pin-silent :
    (host : Host) (root : Option String) (source : SourcePin) (label : Label)
    → verify_pin_under host root source label ≡ []
    → PinnedUnder host root source
unfolding verify_pin_under verify_source_pin
pin-silent host none source label h = tt
pin-silent host (some root) source label h =
    elim (Bool-cases (host.has_git root (repository_name source.repository))) [
      | inr e ↦ cc (rw (e, verify_source_pin) at h)
      | inl e ↦
          let (head, tagged) = append-eq-nil _ _ (rw (e, verify_source_pin) at h) in
          record {
            present = e;
            head =
                against-silent source.commit _ (unreadable_head label) (head_mismatch label) head;
            tagged = against-silent source.commit _ (missing_tag label) (tag_mismatch label) tagged;
          }
    ]

module _ (host : Host) (options : Options) (final : options.require_final ≡ true) (at : ℕ) where
  gate-silent :
      (i : ℕ) (g : Gate)
      → gate_faults host options at i g ≡ []
      → GateFinal host options.artifact_root g
  unfolding gate_faults must_pass
  gate-silent i g h =
      let (first, second) = append-eq-nil _ _ h in
      record {
        passed = same_text _ _ (rw (final) at (report-silent _ _ first));
        evidence = verify_under-silent host options.artifact_root _ _ (gate at i) second;
      }

  pub gates-silent :
      (b : BindingEntry)
      → gates_faults host options at b ≡ []
      → Distinct (map (λ g. g.name) b.gates)
        × Within (map (λ g. g.name) b.gates) required_gates
        × Within required_gates (map (λ g. g.name) b.gates)
        × All (GateFinal host options.artifact_root) b.gates
  unfolding gates_faults gate_set_faults
  gates-silent b h =
      let names = map (λ g. g.name) b.gates in
      let (set, gates) = append-eq-nil _ _ h in
      let (twice, other) = append-eq-nil _ _ set in
      let exact = report-silent _ _ other in
      (
        duplicates-Distinct names (report-silent _ _ twice),
        without-Within names required_gates (sorted-is_nil _ (ground arith)),
        without-Within required_gates names (sorted-is_nil _ (ground arith)),
        each-silent (GateFinal host options.artifact_root) _ gate-silent 0 b.gates gates,
      )

  artifact-silent :
      (i k : ℕ) (seen : Seen) (a : Artifact)
      → artifact_faults host options at i k seen a ≡ []
      → (contains seen.artifacts a.file ≡ false) × ArtifactFinal host options.artifact_root a
  unfolding artifact_faults
  artifact-silent i k seen a h =
      let (first, (second, (file, (origin, (status, _))))) = gather-silent _ h in
      (
        report-silent _ _ first,
        record {
          available = same_text _ _ (
              rw final at (
                report-silent (options.require_final && not (a.registry.status == "available")) _
                  second));
          file = verify_under-silent host options.artifact_root _ _ (artifact at i k) file;
          provenance =
              verify_under-silent host options.artifact_root _ _ (provenance at i k) origin;
          registry = verify_under-silent host options.artifact_root _ _ (registry at i k) status;
        },
      )

  artifacts-silent :
      (i k : ℕ) (seen : Seen) (items : List Artifact)
      → (artifacts_from host options at i k seen items).0 ≡ []
      → Fresh contains seen.artifacts (artifact_files items)
        × All (ArtifactFinal host options.artifact_root) items
  unfolding artifacts_from
  artifacts-silent i k seen [] h = (tt, tt)
  artifacts-silent i k seen (a ∷ items) h =
      let (first, rest) = append-eq-nil _ _ h in
      let (new, accepted) = artifact-silent i k seen a first in
      let (fresh, others) = artifacts-silent i (suc k) (add_artifact a.file seen) items rest in
      ((new, fresh), (accepted, others))

  pub packages-silent :
      (i : ℕ) (seen : Seen) (ps : List Package)
      → (packages_from host options at i seen ps).0 ≡ []
      → Fresh has_coordinate seen.coordinates (map coordinate_key ps)
        × Fresh contains seen.artifacts (package_files ps)
        × All (λ p. All (ArtifactFinal host options.artifact_root) p.artifacts) ps
  unfolding packages_from
  packages-silent i seen [] h = (tt, tt, tt)
  packages-silent i seen (p ∷ ps) h =
      let key = coordinate_key p in
      let (first, (second, (rest, _))) = gather-silent _ h in
      let (files, accepted) = artifacts-silent i 0 (add_coordinate key seen) p.artifacts second in
      let after = artifacts_from-Seen host options at i 0 (add_coordinate key seen) p.artifacts in
      let (keys, others, all_accepted) = packages-silent (suc i) _ ps (rw after at rest) in
      (
        (report-silent _ _ first, keys),
        Fresh-append contains seen.artifacts (artifact_files p.artifacts) (package_files ps) files
            others,
        (accepted, all_accepted),
      )
