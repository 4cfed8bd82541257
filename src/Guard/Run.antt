-- ===== src/Guard/Run.antt =====
-- `scan_text`, `run_binding` and `main`.
pub mod Accepted
mod Examples
use lazily_spec.Prelude.{
  ℕ, String, Bool, true, false, not, ◌&&◌, List, [], ◌∷◌, ◌++◌, map, ◌==◌, string_eq, contains,
  if◌then◌else◌,
}
use lazily_spec.Prelude.Reports.{over}
use lazily_spec.Guard.Chars.{CharClass}
use lazily_spec.Guard.Resolve.{Binding, cpp, cs, dart, go, js, kt, rs}
use lazily_spec.Guard.Scan.{ScanError, scan_c_like}
use lazily_spec.Guard.Zig.{ZigError, scan_zig}
use lazily_spec.Guard.Python.{PyError, Parser, scan_python}

-- The keys of SOURCE_GLOBS.
pub data Language : Type 0 where
  py zig : Language
  c_like : Binding → Language

unfoldable pub source_globs : Language → List String
source_globs (c_like cpp) = "tests/**/*.cpp" ∷ "tests/**/*.hpp" ∷ []
source_globs (c_like cs) = "tests/**/*.cs" ∷ []
source_globs (c_like dart) = "test/**/*.dart" ∷ []
source_globs (c_like go) = "**/*_test.go" ∷ []
source_globs (c_like js) = "test/**/*.js" ∷ []
source_globs (c_like kt) = "src/test/**/*.kt" ∷ []
source_globs py = "tests/**/*.py" ∷ []
source_globs (c_like rs) = "tests/**/*.rs" ∷ []
source_globs zig = "src/**/*.zig" ∷ []

-- SOURCE_EXCLUDES.get(binding, frozenset())
unfoldable pub source_excludes : Language → List String
source_excludes (c_like rs) = "tests/common/expect.rs" ∷ []
source_excludes _ = []

-- The files under the root, by their paths relative to it, and the libraries' functions on texts.
pub record Host : Type 0 where
  pub glob : String → List String
  pub sort_paths : List String → List String
  pub is_file : String → Bool
  pub read_text : String → String
  pub cls : CharClass
  pub parse : Parser

pub data TextError : Type 0 where
  in_call : ScanError → TextError
  in_zig : ZigError → TextError
  in_python : PyError → TextError

unfoldable pub scan_text : Host → Language → String → List TextError
scan_text host py text = map in_python (scan_python host.parse text)
scan_text host zig text = map in_zig (scan_zig host.cls text)
scan_text host (c_like b) text = map in_call (scan_c_like host.cls b text)

pub data RunError : Type 0 where
  no_sources : List String → RunError
  in_file : String → TextError → RunError

abbrev pub is_nil {ℓ} : {A : Type ℓ} → List A → Bool
is_nil [] = true
is_nil (x ∷ xs) = false

-- paths.update(root.glob(pattern)) for each pattern
unfoldable pub globbed : Host → List String → List String
globbed host [] = []
globbed host (pattern ∷ patterns) = host.glob pattern ++ globbed host patterns

-- The two tests that pass over a path.
abbrev pub is_scanned : Host → Language → String → Bool
is_scanned host language path = host.is_file path && not (contains (source_excludes language) path)

unfoldable pub file_errors : Host → Language → String → List RunError
unfolding scan_text
file_errors host language path =
    if is_scanned host language path
    then map (in_file path) (scan_text host language (host.read_text path))
    else []

unfoldable pub run_binding : Host → Language → List RunError
unfolding globbed
run_binding host language =
    let paths = globbed host (source_globs language) in
    if is_nil paths
    then no_sources (source_globs language) ∷ []
    else over (file_errors host language) (host.sort_paths paths)

-- The exit status for a binding.
unfoldable pub main : Host → Language → ℕ
unfolding run_binding
main host language = if is_nil (run_binding host language) then 0 else 1
