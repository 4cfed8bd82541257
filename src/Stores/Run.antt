-- ===== src/Stores/Run.antt =====
-- `sparse_paths` and `main`.
use lazily_spec.Prelude.{
  ℕ, String, Bool, true, false, not, Option, none, some, List, [], ◌∷◌, ◌++◌, map, ◌==◌, string_eq,
  if◌then◌else◌,
}
use lazily_spec.Prelude.Sorted.{sorted}
use lazily_spec.Prelude.Reports.{over}
use lazily_spec.Stores.Registry.{
  Sqlite, no_store, host_connection, owned_connection, Entry, Registry, Checkout, Host, Problem,
  missing_checkout,
}
use lazily_spec.Stores.Check.{registry_problems, binding_problems}

-- Each text but ".".
unfoldable pub but_dot : List String → List String
but_dot [] = []
but_dot (p ∷ ps) = let rest = but_dot ps in if p == "." then rest else p ∷ rest

abbrev pub declared_files : Sqlite → List String
declared_files no_store = []
declared_files (host_connection store) = store.file ∷ []
declared_files (owned_connection store) =
    store.driver_files
    ++ store.busy_timeout.file ∷ store.two_writer_tests.file ∷ store.deferred_transaction_guard.file
      ∷ []

unfoldable pub sparse_paths : Host → Entry → List String
unfolding but_dot sorted
sparse_paths host entry =
    sorted (but_dot entry.scan_roots ++ but_dot (map host.parent (declared_files entry.sqlite)))

-- The entries of a binding.
unfoldable pub entries_of : String → List Entry → List Entry
entries_of binding [] = []
entries_of binding (entry ∷ entries) =
    let rest = entries_of binding entries in if entry.binding == binding then entry ∷ rest else rest

-- `main` with --sparse-paths, which checks nothing: the paths that it prints before it answers 0. The
-- unpacking raises where the binding has no entry, or more than one.
unfoldable pub printed_paths : Host → Registry → String → Option (List String)
unfolding entries_of sparse_paths
printed_paths host registry binding = elim (entries_of binding registry.bindings) [
  | entry ∷ [] ↦ some (sparse_paths host entry)
  | _ ↦ none
]

-- The options of `main` without --sparse-paths, and the sibling directories.
pub record Options : Type 0 where
  pub require_all : Bool
  pub sibling : String → Option Checkout

-- One turn of the loop over the bindings: its problems, and whether the binding was checked.
unfoldable pub sibling_problems : Host → Options → Registry → Entry → List Problem
sibling_problems host options registry entry = elim (options.sibling entry.repo) [
  | some repo ↦ binding_problems host entry repo registry.drivers
  | none ↦ if options.require_all then missing_checkout entry.binding ∷ [] else []
]

unfoldable pub checked : Options → List Entry → List String
checked options [] = []
checked options (entry ∷ entries) =
    let rest = checked options entries in
    elim (options.sibling entry.repo) [ some repo ↦ entry.binding ∷ rest | none ↦ rest ]

unfoldable pub problems : Host → Options → Registry → List Problem
problems host options registry =
    registry_problems host registry none
    ++ over (sibling_problems host options registry) registry.bindings

abbrev pub is_nil {ℓ} : {A : Type ℓ} → List A → Bool
is_nil [] = true
is_nil (x ∷ xs) = false

-- The exit status without --sparse-paths.
unfoldable pub main : Host → Options → Registry → ℕ
main host options registry =
    if not (is_nil (problems host options registry))
    then 1
    else if is_nil (checked options registry.bindings)
    then (if options.require_all then 1 else 0)
    else 0
