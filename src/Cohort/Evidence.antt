-- ===== src/Cohort/Evidence.antt =====
-- `safe_evidence_path` and `verify_digest`.
use lazily_spec.Prelude.{
  String, Bool, true, false, not, ◌&&◌, Option, none, some, List, [], ◌∷◌, ◌==◌, string_eq,
  if◌then◌else◌,
}
use lazily_spec.Cohort.Manifest.{Host}
use lazily_spec.Cohort.Faults.{
  Label, Fault, escapes_root, missing_evidence, digest_mismatch, report,
}

-- candidate == root or root in candidate.parents
unfoldable pub is_within : List String → List String → Bool
is_within [] candidate = true
is_within (r ∷ root) [] = false
is_within (r ∷ root) (c ∷ candidate) = r == c && is_within root candidate

unfoldable pub safe_evidence_path : Host → String → String → Option (List String)
unfolding is_within
safe_evidence_path host root relative =
    let candidate = host.resolve_under root relative in
    if is_within (host.resolve root) candidate then some candidate else none

unfoldable pub verify_digest : Host → String → String → String → Label → List Fault
unfolding safe_evidence_path
verify_digest host root relative expected label = elim (safe_evidence_path host root relative) [
  | none ↦ escapes_root label relative ∷ []
  | some path ↦
      if host.is_file path
      then report (not (host.sha256_file path == expected))
          (digest_mismatch label relative expected (host.sha256_file path))
      else missing_evidence label relative ∷ []
]

-- verify_digest(...) if root is not None
unfoldable pub verify_under : Host → Option String → String → String → Label → List Fault
unfolding verify_digest
verify_under host none relative expected label = []
verify_under host (some root) relative expected label =
    verify_digest host root relative expected label
