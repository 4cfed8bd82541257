-- ===== src/Cohort/Report/Sound.antt =====
-- What the report says of a final cohort.
use lazily_spec.Prelude.{
  Option, String, true, false, List, [], ◌∷◌, map, ◌≡◌, refl, arith, ◌==◌, string_eq, eq_iff, ◌⊎◌,
  inl, inr, Bool-cases, contains, All,
}
use lazily_spec.Cohort.Manifest.{Host, Options, Manifest, BindingEntry, Package, Artifact, Gate}
use lazily_spec.Cohort.Faults.{Fault}
use lazily_spec.Cohort.Validate.{validate_semantics}
use lazily_spec.Cohort.Accepted.{CohortFinal, BindingFinal, GateFinal, ArtifactFinal}
use lazily_spec.Cohort.Sound.Whole.{validate_semantics_final}
use lazily_spec.Cohort.Report.{
  Row, status_from, gate_status, package_row, row, is_nil, build_report, accepted, main,
  main_report,
}

-- Every status that the report shows of a binding is that of a finished one.
pub record RowPassed (r : Row) : Type 0 where
  pub api : r.api_status ≡ "passed"
  pub fixture : r.fixture_status ≡ "passed"
  pub packaged : r.package_status ≡ "passed"
  pub published_consumer : r.published_consumer_status ≡ "passed"
  pub registries : All (λ p. All (λ status. status ≡ "available") p.registry_statuses) r.packages

module _ (host : Host) (root : Option String) where
  status_from-passed :
      (found name : String) (gates : List Gate)
      → All (GateFinal host root) gates
      → (found ≡ "passed") ⊎ (contains (map (λ g. g.name) gates) name ≡ true)
      → status_from found name gates ≡ "passed"
  unfolding status_from
  status_from-passed found name [] final (inl e) = e
  status_from-passed found name [] final (inr c) = cc
  status_from-passed found name (g ∷ gs) (first, rest) known = elim (Bool-cases (g.name == name)) [
    | inl e ↦ rw e (status_from-passed g.status name gs rest (inl first.passed))
    | inr e ↦ rw e (status_from-passed found name gs rest (later e known))
  ]
    where
      later :
          (g.name == name) ≡ false
          → (found ≡ "passed") ⊎ (contains (map (λ g. g.name) (g ∷ gs)) name ≡ true)
          → (found ≡ "passed") ⊎ (contains (map (λ g. g.name) gs) name ≡ true)
      later e (inl p) = inl p
      later e (inr c) = inr (ground (arith, eq_iff g.name name, eq_iff name g.name))

  available_statuses :
      (artifacts : List Artifact)
      → All (ArtifactFinal host root) artifacts
      → All (λ status. status ≡ "available") (map (λ a. a.registry.status) artifacts)
  available_statuses [] h = tt
  available_statuses (a ∷ artifacts) (first, rest) =
      (first.available, available_statuses artifacts rest)

  available_packages :
      (packages : List Package)
      → All (λ p. All (ArtifactFinal host root) p.artifacts) packages
      → All
          (λ p. All (λ status. status ≡ "available") p.registry_statuses)
          (map package_row packages)
  available_packages [] h = tt
  available_packages (p ∷ packages) (first, rest) =
      (available_statuses p.artifacts first, available_packages packages rest)

module _ (host : Host) (options : Options) (m : Manifest) where
  row-RowPassed : (b : BindingEntry) → BindingFinal host options m b → RowPassed (row b)
  unfolding row gate_status
  row-RowPassed b final =
      let (_, (api, (fixture, (package_gate, (_, (published, _)))))) = final.gates_needed in
      record {
        api =
            status_from-passed host options.artifact_root "missing" "api" b.gates final.gates
              (inr api);
        fixture =
            status_from-passed host options.artifact_root "missing" "fixture" b.gates final.gates
              (inr fixture);
        packaged =
            status_from-passed host options.artifact_root "missing" "package" b.gates final.gates
              (inr package_gate);
        published_consumer =
            status_from-passed host options.artifact_root "missing" "published_consumer" b.gates
              final.gates (inr published);
        registries = available_packages host options.artifact_root b.packages final.artifacts;
      }

  rows-RowPassed :
      (bs : List BindingEntry) → All (BindingFinal host options m) bs → All RowPassed (map row bs)
  rows-RowPassed [] h = tt
  rows-RowPassed (b ∷ bs) (first, rest) = (row-RowPassed b first, rows-RowPassed bs rest)

  -- With --require-final, where main accepts a document with the exit status 0, it is a final cohort,
  -- the report that main writes is a passed one without errors, and each of its rows shows the four
  -- gates passed and every artifact available.
  pub main_final :
      options.require_final ≡ true
      → main host options (accepted m) ≡ 0
      → CohortFinal host options m
        × ((main_report host options m).status ≡ "passed")
        × ((main_report host options m).errors ≡ [])
        × All RowPassed (main_report host options m).bindings
  unfolding main main_report build_report
  main_final final h =
      let silent =
        nothing (validate_semantics host options m)
          (exit_zero (Bool-cases (is_nil (validate_semantics host options m)))) in
      let whole = validate_semantics_final host options m final silent in
      (whole, rw silent refl, silent, rows-RowPassed m.bindings whole.bindings)
    where
      nothing : (faults : List Fault) → is_nil faults ≡ true → faults ≡ []
      nothing [] e = refl
      nothing (f ∷ faults) e = cc

      exit_zero :
          (is_nil (validate_semantics host options m) ≡ true)
            ⊎ (is_nil (validate_semantics host options m) ≡ false)
          → is_nil (validate_semantics host options m) ≡ true
      exit_zero (inl e) = e
      exit_zero (inr e) = absurd (ground (arith, rw (e, main) at h))
