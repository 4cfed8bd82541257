-- ===== src/Ordering/Run.antt =====
-- `run_binding`, `_consumption_exemption_errors`, `consumption_errors` and `main`.
use lazily_spec.Prelude.{
  ℕ, zero, ℤ, pos, String, Bool, not, none, some, List, [], ◌∷◌, ◌++◌, map, ◌==◌, nat_eq, string_eq,
  if◌then◌else◌,
}
use lazily_spec.Prelude.Texts.{◌+++◌}
use lazily_spec.Prelude.Sorted.{sorted}
use lazily_spec.Prelude.Reports.{over}
use lazily_spec.Ordering.Check.{OrderedCheck, OrderError, Finder, is_nil, ordering_errors}
use lazily_spec.Ordering.Checks.{lookup, all_checks, Exemption, consumption_unconfigured}

-- subprocess.run(...)
pub record Completed : Type 0 where
  pub returncode : ℤ
  pub stdout : String
  pub stderr : String

-- What the file system, the patterns and the companion guard answer, under the root that is given.
pub record Host : Type 0 where
  pub finditer : Finder
  pub is_file : String → Bool
  pub read_text : String → String
  pub glob : String → List String
  pub sort_paths : List String → List String
  pub search_call : String → String → Bool
  pub guard : String → Completed
  pub strip : String → String
  pub str : ℤ → String
  pub splitlines : String → List String

pub data Fault : Type 0 where
  missing_file : String → Fault
  order_fault : String → String → OrderError → Fault
  no_sources : String → List String → Fault
  carries : String → List String → String → Fault
  guard_line : String → Fault

unfoldable pub check_faults : Host → OrderedCheck → List Fault
unfolding ordering_errors
check_faults host check =
    if host.is_file check.path
    then map (order_fault check.path check.description)
        (ordering_errors host.finditer (host.read_text check.path) check)
    else missing_file check.path ∷ []

unfoldable pub run_checks : Host → List OrderedCheck → List Fault
unfolding check_faults over
run_checks host checks = over (check_faults host) checks

-- CHECKS[binding], which `argparse` has looked up
unfoldable pub run_binding : Host → String → List Fault
unfolding run_checks lookup
run_binding host binding = elim (lookup binding all_checks) [
  | none ↦ []
  | some checks ↦ run_checks host checks
]

unfoldable pub files_of : Host → List String → List String
files_of host [] = []
files_of host (path ∷ paths) =
    let rest = files_of host paths in if host.is_file path then path ∷ rest else rest

unfoldable pub glob_all : Host → List String → List String
glob_all host [] = []
glob_all host (glob ∷ globs) = host.glob glob ++ glob_all host globs

-- The set of the files, in the order of paths.
unfoldable pub sources : Host → Exemption → List String
unfolding files_of glob_all
sources host exemption = host.sort_paths (files_of host (glob_all host exemption.globs))

unfoldable pub found_calls : Host → String → List String → List String
found_calls host path [] = []
found_calls host path (name ∷ names) =
    let rest = found_calls host path names in
    if host.search_call name (host.read_text path)
    then (path +++ ": " +++ name +++ "(") ∷ rest
    else rest

unfoldable pub found_in : Host → Exemption → List String → List String
unfolding found_calls
found_in host exemption [] = []
found_in host exemption (path ∷ paths) =
    found_calls host path exemption.call_names ++ found_in host exemption paths

unfoldable pub exemption_faults : Host → String → Exemption → List Fault
exemption_faults host binding exemption =
    if is_nil (sources host exemption)
    then no_sources binding exemption.globs ∷ []
    else if not (is_nil (found_in host exemption (sources host exemption)))
    then carries binding (sorted (found_in host exemption (sources host exemption)))
        exemption.reason
      ∷ []
    else []

-- "\n".join(part.strip() for part in parts if part.strip())
abbrev pub join_lines : String → String → String
join_lines out err = if out == "" then err else if err == "" then out else out +++ "\n" +++ err

-- What the companion guard printed, or that it printed nothing.
unfoldable pub diagnostics : Host → Completed → String
diagnostics host result =
    let output = join_lines (host.strip result.stdout) (host.strip result.stderr) in
    if output == ""
    then "callback-consumption guard exited "
      +++ host.str result.returncode
      +++ " without diagnostics"
    else output

unfoldable pub guard_faults : Host → Completed → List Fault
unfolding diagnostics
guard_faults host result = elim result.returncode [
  | pos zero ↦ []
  | _ ↦ map guard_line (host.splitlines (diagnostics host result))
]

unfoldable pub consumption_faults : Host → String → List Fault
unfolding exemption_faults guard_faults lookup
consumption_faults host binding = elim (lookup binding consumption_unconfigured) [
  | some exemption ↦ exemption_faults host binding exemption
  | none ↦ guard_faults host (host.guard binding)
]

-- The exit status for a binding.
unfoldable pub main : Host → String → ℕ
unfolding run_binding consumption_faults
main host binding =
    if is_nil (run_binding host binding ++ consumption_faults host binding) then 0 else 1
