-- ===== src/Cohort/Pins.antt =====
-- `repository_name` and `verify_source_pin`.
use Prim.Native.Char.{code}
use lazily_spec.Prelude.{
  ℕ, String, not, Option, none, some, List, [], ◌∷◌, ◌++◌, ◌==◌, nat_eq, string_eq, if◌then◌else◌,
}
use lazily_spec.Prelude.Texts.{◌+++◌}
use lazily_spec.Cohort.Manifest.{Host, SourcePin}
use lazily_spec.Cohort.Faults.{
  Label, Fault, missing_checkout, unreadable_head, missing_tag, head_mismatch, tag_mismatch, report,
}

-- url.rstrip("/")
unfoldable pub rstrip_slash : String → String
rstrip_slash String.[] = String.[]
rstrip_slash (String.◌∷◌ c s) =
    let rest = rstrip_slash s in
    if code c == b'/' then (if rest == "" then "" else String.◌∷◌ c rest) else String.◌∷◌ c rest

-- What follows the last slash.
unfoldable pub after_slash : String → Option String
after_slash String.[] = none
after_slash (String.◌∷◌ c s) = elim (after_slash s) [
  | some rest ↦ some rest
  | none ↦ if code c == b'/' then some s else none
]

-- s.removesuffix(".git")
unfoldable pub remove_git : String → String
remove_git String.[] = String.[]
remove_git (String.◌∷◌ c s) =
    let rest = remove_git s in if String.◌∷◌ c s == ".git" then "" else String.◌∷◌ c rest

unfoldable pub repository_name : String → String
unfolding rstrip_slash after_slash remove_git
repository_name url =
    let stripped = rstrip_slash url in
    remove_git (elim (after_slash stripped) [ some name ↦ name | none ↦ stripped ])

-- The exit code of the first `git rev-parse` that succeeds, or of the second, with its output.
unfoldable pub tag_commit : Host → String → String → String → ℕ × String
tag_commit host root repo tag =
    let peeled = host.git_output root repo ("rev-parse" ∷ ("refs/tags/" +++ tag +++ "^{}") ∷ []) in
    let plain = host.git_output root repo ("rev-parse" ∷ ("refs/tags/" +++ tag) ∷ []) in
    if peeled.0 == 0 then peeled else plain

-- What one call of Git says against the pinned commit.
unfoldable pub against : String → ℕ × String → Fault → (String → Fault) → List Fault
against commit (exit, out) failed mismatch =
    if exit == 0 then report (not (out == commit)) (mismatch out) else failed ∷ []

unfoldable pub verify_source_pin : Host → SourcePin → String → Label → List Fault
unfolding repository_name tag_commit against
verify_source_pin host source root label =
    let repo = repository_name source.repository in
    if host.has_git root repo
    then against source.commit (host.git_output root repo ("rev-parse" ∷ "HEAD" ∷ []))
        (unreadable_head label) (head_mismatch label)
      ++ against source.commit (tag_commit host root repo source.tag) (missing_tag label)
          (tag_mismatch label)
    else missing_checkout label ∷ []

unfoldable pub verify_pin_under : Host → Option String → SourcePin → Label → List Fault
unfolding verify_source_pin
verify_pin_under host none source label = []
verify_pin_under host (some root) source label = verify_source_pin host source root label
