-- ===== src/Stores/Sound/Conforms.antt =====
-- What a binding declares of its checkout.
use lazily_spec.Prelude.{String, true, List, [], ◌∷◌, ◌++◌, ◌≡◌, string_eq, contains}
use lazily_spec.Prelude.Members.{In}
use lazily_spec.Stores.Registry.{
  Owned, Sqlite, no_store, host_connection, owned_connection, Entry, Driver, RelPath, Checkout,
  Host,
}
use lazily_spec.Stores.Identifier.{has_identifier, is_in}
use lazily_spec.Stores.Scan.{as_posix}
use lazily_spec.Stores.Sound.Scanned.{SourceOf, Uses}

-- A declared file exists, and its text has a property.
abbrev pub Reads : Checkout → String → (String → Type 0) → Type 0
Reads repo rel P = (repo.is_declared_file rel ≡ true) × P (repo.declared_text rel)

abbrev pub Defines : String → String → Type 0
Defines store text = has_identifier text store ≡ true

abbrev pub Holds : String → String → Type 0
Holds token text = is_in token text ≡ true

-- What a binding with a connection of its own declares.
pub record OwnedHolds (repo : Checkout) (used : String → Type 0) (store : Owned) : Type 0 where
  pub only_declared : (rel : String) → used rel → contains store.driver_files rel ≡ true
  pub none_stale : (rel : String) → contains store.driver_files rel ≡ true → used rel
  pub timeout :
      Reads repo store.busy_timeout.file
        (λ text. Holds store.busy_timeout.declaration text × Defines store.store text)
  pub tests : Reads repo store.two_writer_tests.file (λ text.
      (name : String)
      → In name (store.two_writer_tests.holds ++ store.busy_timeout.test ∷ [])
      → Defines name text)
  pub guard : Reads repo store.deferred_transaction_guard.file (λ text.
      (token : String) → In token store.deferred_transaction_guard.holds → Holds token text)

-- What a declaration says, given the paths of the files that use a driver.
abbrev pub Declared : Checkout → (String → Type 0) → Sqlite → Type 0
Declared repo used no_store = (rel : String) → used rel → ⊥
Declared repo used (host_connection store) =
    ((rel : String) → used rel → ⊥)
    × Reads repo store.file (λ text. Holds store.marker text × Defines store.store text)
Declared repo used (owned_connection store) = OwnedHolds repo used store

-- The path is that of a source file that uses a driver.
abbrev pub UsedAt : Host → Checkout → List String → List Driver → String → Type 0
UsedAt host repo roots drivers rel =
    (path : RelPath) × SourceOf host repo roots path
    × Uses host repo drivers path
    × (rel ≡ as_posix path)

abbrev pub Conforms : Host → Entry → Checkout → List Driver → Type 0
Conforms host entry repo drivers =
    ((path : RelPath) × SourceOf host repo entry.scan_roots path)
    × Declared repo (UsedAt host repo entry.scan_roots drivers) entry.sqlite
