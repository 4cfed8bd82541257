-- ===== src/Cohort/Gates.antt =====
-- The gates of one binding.
use lazily_spec.Prelude.{
  ℕ, String, Bool, true, false, not, ◌&&◌, ◌||◌, List, [], ◌∷◌, ◌++◌, map, ◌==◌, string_eq,
  if◌then◌else◌, contains,
}
use lazily_spec.Prelude.Sorted.{sorted}
use lazily_spec.Cohort.Manifest.{
  Host, Options, BindingEntry, Gate, required_gates, pre_publish_gates,
}
use lazily_spec.Cohort.Faults.{
  Label, binding, gate, Fault, duplicate_gates, other_gates, not_passed, report, each,
}
use lazily_spec.Cohort.Evidence.{verify_under}

-- The items that stand in `xs` once more after their first place.
unfoldable pub repeats : List String → List String
repeats [] = []
repeats (x ∷ xs) = let rest = repeats xs in if contains xs x then x ∷ rest else rest

-- xs - ys
unfoldable pub without : List String → List String → List String
without ys [] = []
without ys (x ∷ xs) = let rest = without ys xs in if contains ys x then rest else x ∷ rest

abbrev pub is_nil : List String → Bool
is_nil [] = true
is_nil (x ∷ xs) = false

unfoldable pub duplicates : List String → List String
unfolding sorted repeats
duplicates xs = sorted (repeats xs)

unfoldable pub gate_set_faults : Label → List String → List Fault
unfolding duplicates without sorted
gate_set_faults label names =
    let missing = sorted (without names required_gates) in
    let extra = sorted (without required_gates names) in
    report (not (is_nil (duplicates names))) (duplicate_gates label (duplicates names))
    ++ report (not (is_nil missing) || not (is_nil extra)) (other_gates label missing extra)

unfoldable pub must_pass : Options → Gate → Bool
must_pass options g =
    options.require_final || options.require_publish_ready && contains pre_publish_gates g.name

unfoldable pub gate_faults : Host → Options → ℕ → ℕ → Gate → List Fault
unfolding must_pass verify_under
gate_faults host options at i g =
    report (must_pass options g && not (g.status == "passed")) (not_passed (gate at i))
    ++ verify_under host options.artifact_root g.evidence_file g.evidence_sha256 (gate at i)

unfoldable pub gates_faults : Host → Options → ℕ → BindingEntry → List Fault
unfolding gate_set_faults gate_faults
gates_faults host options at b =
    gate_set_faults (binding at) (map (λ g. g.name) b.gates)
    ++ each 0 (gate_faults host options at) b.gates
