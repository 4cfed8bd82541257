-- ===== src/Stores/Check.antt =====
-- `registry_problems` and `binding_problems`.
use Prim.Native.Nat.{Ordering}
use Prim.Native.String.{compare}
use lazily_spec.Prelude.{
  ℕ, suc, String, Bool, true, false, not, ◌&&◌, ◌||◌, Option, none, some, List, [], ◌∷◌, ◌++◌, map,
  ◌==◌, string_eq, nat_eq, contains, if◌then◌else◌,
}
use lazily_spec.Prelude.Texts.{◌+++◌}
use lazily_spec.Prelude.Sorted.{sorted}
use lazily_spec.Prelude.Reports.{report, gather, over}
use lazily_spec.Stores.Registry.{
  Owned, Hosted, Sqlite, no_store, host_connection, owned_connection, Entry, Driver, Registry,
  Checkout, Host, Problem, listed_twice, other_bindings, other_repo, other_timeout, invalid_pattern,
  no_sources, declared_none, declared_host, undeclared_driver, missing_file, no_marker,
  no_store_there, stale_driver, no_declaration, no_test, no_token,
}
use lazily_spec.Stores.Identifier.{has_identifier, is_in}
use lazily_spec.Stores.Scan.{Hits, scan_files, driver_hits}

-- sorted(names), doubles kept
unfoldable pub insert_text : String → List String → List String
insert_text k [] = k ∷ []
insert_text k (j ∷ js) =
    let rest = insert_text k js in elim (compare k j) [ Ordering.gt ↦ j ∷ rest | _ ↦ k ∷ j ∷ js ]

unfoldable pub sort_texts : List String → List String
unfolding insert_text
sort_texts [] = []
sort_texts (k ∷ ks) = insert_text k (sort_texts ks)

-- xs == ys
unfoldable pub same_texts : List String → List String → Bool
same_texts [] [] = true
same_texts [] (y ∷ ys) = false
same_texts (x ∷ xs) [] = false
same_texts (x ∷ xs) (y ∷ ys) = x == y && same_texts xs ys

-- names.count(n)
unfoldable pub count : String → List String → ℕ
count n [] = 0
count n (x ∷ xs) = let rest = count n xs in if n == x then suc rest else rest

-- len(names) != len(set(names))
unfoldable pub has_repeats : List String → Bool
has_repeats [] = false
has_repeats (x ∷ xs) = contains xs x || has_repeats xs

-- n for n in names if names.count(n) > 1
unfoldable pub repeated : List String → List String → List String
unfolding count
repeated names [] = []
repeated names (n ∷ ns) =
    let rest = repeated names ns in elim (count n names) [ suc (suc m) ↦ n ∷ rest | _ ↦ rest ]

unfoldable pub entry_problems : ℕ → Entry → List Problem
entry_problems contract_ms entry = gather (
    report (not (entry.repo == "lazily-" +++ entry.binding)) (other_repo entry.binding entry.repo)
    ∷ elim entry.sqlite [
      | owned_connection store ↦
          report (not (store.busy_timeout.ms == contract_ms))
            (other_timeout entry.binding store.busy_timeout.ms contract_ms)
      | _ ↦ []
    ]
    ∷ [])

abbrev expected_problems : List String → Option (List String) → List Problem
expected_problems names none = []
expected_problems names (some expected) =
    report (not (same_texts (sort_texts names) (sort_texts expected)))
      (other_bindings (sort_texts names) (sort_texts expected))

abbrev pub names_of : Registry → List String
names_of registry = map (λ entry. entry.binding) registry.bindings

unfoldable pub registry_problems : Host → Registry → Option (List String) → List Problem
unfolding has_repeats repeated sort_texts same_texts
registry_problems host registry expected = gather (
    report (has_repeats (names_of registry))
      (listed_twice (sort_texts (repeated (names_of registry) (names_of registry))))
    ∷ expected_problems (names_of registry) expected
    ∷ over (entry_problems registry.busy_timeout_ms) registry.bindings
    ∷ over (λ driver. report (not (host.compiles driver.pattern)) (invalid_pattern driver.id))
        registry.drivers
    ∷ [])

-- sorted(hits.items())
unfoldable pub insert_hit : String × List String → Hits → Hits
insert_hit hit [] = hit ∷ []
insert_hit hit (first ∷ rest) =
    let later = insert_hit hit rest in
    elim (compare hit.0 first.0) [ Ordering.gt ↦ first ∷ later | _ ↦ hit ∷ first ∷ rest ]

unfoldable pub sort_hits : Hits → Hits
unfolding insert_hit
sort_hits [] = []
sort_hits (hit ∷ hits) = insert_hit hit (sort_hits hits)

-- `_read` of a declared file, then the checks of its text.
unfoldable pub reading : Checkout → String → String → (String → List Problem) → List Problem
reading repo binding rel check =
    if repo.is_declared_file rel
    then check (repo.declared_text rel)
    else missing_file binding rel ∷ []

unfoldable pub host_problems : String → Checkout → Hits → Hosted → List Problem
host_problems binding repo hits store = gather (
    over (λ hit. declared_host binding hit.0 (sorted hit.1) ∷ []) (sort_hits hits)
    ∷ reading repo binding store.file (λ text. gather (
        report (not (is_in store.marker text)) (no_marker binding store.file)
        ∷ report (not (has_identifier text store.store)) (no_store_there binding store.file)
        ∷ []))
    ∷ [])

-- allowed - set(hits)
unfoldable pub stale : List String → Hits → List String
stale [] hits = []
stale (rel ∷ rels) hits =
    let rest = stale rels hits in
    if contains (map (λ hit. hit.0) hits) rel then rest else rel ∷ rest

abbrev pub snoc {ℓ} : {A : Type ℓ} → List A → A → List A
snoc xs x = xs ++ x ∷ []

unfoldable pub owned_problems : String → Checkout → Hits → Owned → List Problem
owned_problems binding repo hits store =
    let timeout = store.busy_timeout in
    let tests = store.two_writer_tests in
    let guard = store.deferred_transaction_guard in
    gather (
      over
        (λ hit.
          report (not (contains store.driver_files hit.0))
            (undeclared_driver binding hit.0 (sorted hit.1)))
        (sort_hits hits)
      ∷ over (λ rel. stale_driver binding rel ∷ []) (sorted (stale store.driver_files hits))
      ∷ reading repo binding timeout.file (λ text. gather (
          report (not (is_in timeout.declaration text)) (no_declaration binding timeout.file)
          ∷ report (not (has_identifier text store.store)) (no_store_there binding timeout.file)
          ∷ []))
      ∷ reading repo binding tests.file (λ text.
        over (λ name. report (not (has_identifier text name)) (no_test binding tests.file name))
          (snoc tests.holds timeout.test))
      ∷ reading repo binding guard.file (λ text.
        over (λ token. report (not (is_in token text)) (no_token binding guard.file token))
          guard.holds)
      ∷ [])

abbrev pub is_nil {ℓ} : {A : Type ℓ} → List A → Bool
is_nil [] = true
is_nil (x ∷ xs) = false

unfoldable pub sqlite_problems : String → Checkout → Hits → Sqlite → List Problem
sqlite_problems binding repo hits no_store =
    over (λ hit. declared_none binding hit.0 (sorted hit.1) ∷ []) (sort_hits hits)
sqlite_problems binding repo hits (host_connection store) = host_problems binding repo hits store
sqlite_problems binding repo hits (owned_connection store) = owned_problems binding repo hits store

unfoldable pub binding_problems : Host → Entry → Checkout → List Driver → List Problem
binding_problems host entry repo drivers = gather (
    report (is_nil (scan_files host repo entry.scan_roots))
      (no_sources entry.binding entry.scan_roots)
    ∷ sqlite_problems entry.binding repo (driver_hits host repo entry.scan_roots drivers)
        entry.sqlite
    ∷ [])
