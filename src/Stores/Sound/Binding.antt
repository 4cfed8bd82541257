-- ===== src/Stores/Sound/Binding.antt =====
-- `binding_problems` reports nothing exactly where the checkout conforms to the declaration.
use lazily_spec.Prelude.{
  String, true, false, not, List, [], ◌∷◌, ◌≡◌, ◌↔◌, refl, string_eq, contains,
}
use lazily_spec.Prelude.Members.{In, here}
use lazily_spec.Prelude.Reports.{
  report, gather, report-silent, silent-report, gather-silent, silent-gather,
}
use lazily_spec.Stores.Registry.{
  Owned, Hosted, Sqlite, no_store, host_connection, owned_connection, Entry, Driver, RelPath,
  Checkout, Host, Problem,
}
use lazily_spec.Stores.Identifier.{has_identifier, is_in}
use lazily_spec.Stores.Scan.{Hits, scan_files, driver_hits}
use lazily_spec.Stores.Check.{
  reading, host_problems, owned_problems, sqlite_problems, binding_problems, is_nil,
}
use lazily_spec.Stores.Sound.Scanned.{SourceOf, scan_files-In}
use lazily_spec.Stores.Sound.Hit.{hit_keys, driver_hits_iff}
use lazily_spec.Stores.Sound.Conforms.{Reads, Defines, Holds, OwnedHolds, Declared, Conforms}
use lazily_spec.Stores.Sound.Silence.{
  report-not_iff, over-hit_keys, over-always, gather_two_iff, reading_iff, two_reports_iff,
  over_reports_iff, stale_iff,
}

-- The path of an entry of the hits.
abbrev IsHit : Hits → String → Type 0
IsHit hits rel = contains (hit_keys hits) rel ≡ true

module _ (binding : String) (repo : Checkout) (hits : Hits) where
  host_problems_iff :
      (store : Hosted)
      → (host_problems binding repo hits store ≡ [])
        ↔ Declared repo (IsHit hits) (host_connection store)
  unfolding host_problems
  host_problems_iff store = (
    λ h. let (p, q) = (gather_two_iff _ _).0 h in ((over-always _ hits).0 p, (reads store).0 q),
    λ (p, q). (gather_two_iff _ _).1 ((over-always _ hits).1 p, (reads store).1 q),
  )
    where
      reads :
          (store : Hosted)
          → (reading repo binding store.file (λ text. gather (
                report (not (is_in store.marker text)) (Problem.no_marker binding store.file)
                ∷ report
                    (not (has_identifier text store.store))
                    (Problem.no_store_there binding store.file)
                ∷ []))
              ≡ [])
            ↔ Reads repo store.file (λ text. Holds store.marker text × Defines store.store text)
      reads store =
          reading_iff repo binding store.file _ _ (λ text.
            two_reports_iff (is_in store.marker text) (has_identifier text store.store) _ _)

  owned_problems_iff :
      (store : Owned)
      → (owned_problems binding repo hits store ≡ []) ↔ OwnedHolds repo (IsHit hits) store
  unfolding owned_problems
  owned_problems_iff store = (
    λ h.
        let (p, (q, (r, (t, (g, _))))) = gather-silent _ h in
        record {
          only_declared =
              (over-hit_keys _ (λ rel. contains store.driver_files rel ≡ true)
                  (λ hit. report-not_iff (contains store.driver_files hit.0) _) hits).0
                p;
          none_stale = (stale_iff binding store.driver_files hits).0 q;
          timeout =
              (reading_iff repo binding store.busy_timeout.file _ _ (λ text.
                  two_reports_iff (is_in store.busy_timeout.declaration text)
                    (has_identifier text store.store) _ _)).0
                r;
          tests =
              (reading_iff repo binding store.two_writer_tests.file _ _
                  (λ text. over_reports_iff (has_identifier text) _ _)).0
                t;
          guard =
              (reading_iff repo binding store.deferred_transaction_guard.file _ _
                  (λ text. over_reports_iff (λ token. is_in token text) _ _)).0
                g;
        },
    λ o. silent-gather _ (
      (over-hit_keys _ (λ rel. contains store.driver_files rel ≡ true)
            (λ hit. report-not_iff (contains store.driver_files hit.0) _) hits).1
          o.only_declared,
      (
        (stale_iff binding store.driver_files hits).1 o.none_stale,
        (
          (reading_iff repo binding store.busy_timeout.file _ _ (λ text.
                two_reports_iff (is_in store.busy_timeout.declaration text)
                  (has_identifier text store.store) _ _)).1
              o.timeout,
          (
            (reading_iff repo binding store.two_writer_tests.file _ _
                  (λ text. over_reports_iff (has_identifier text) _ _)).1
                o.tests,
            (
              (reading_iff repo binding store.deferred_transaction_guard.file _ _
                    (λ text. over_reports_iff (λ token. is_in token text) _ _)).1
                  o.guard,
              tt,
            ),
          ),
        ),
      ),
    ),
  )

  sqlite_problems_iff :
      (s : Sqlite) → (sqlite_problems binding repo hits s ≡ []) ↔ Declared repo (IsHit hits) s
  unfolding sqlite_problems
  sqlite_problems_iff no_store = over-always _ hits
  sqlite_problems_iff (host_connection store) = host_problems_iff store
  sqlite_problems_iff (owned_connection store) = owned_problems_iff store

-- A declaration says the same of the same files.
Declared-map :
    (repo : Checkout) (used used' : String → Type 0) (s : Sqlite)
    → ((rel : String) → used rel ↔ used' rel)
    → Declared repo used s
    → Declared repo used' s
Declared-map repo used used' no_store h d = λ rel u. d rel ((h rel).1 u)
Declared-map repo used used' (host_connection store) h (d, r) = (λ rel u. d rel ((h rel).1 u), r)
Declared-map repo used used' (owned_connection store) h o = record {
  only_declared = λ rel u. o.only_declared rel ((h rel).1 u);
  none_stale = λ rel c. (h rel).0 (o.none_stale rel c);
  timeout = o.timeout;
  tests = o.tests;
  guard = o.guard;
}

scanned_iff :
    (host : Host) (repo : Checkout) (roots : List String)
    → (is_nil (scan_files host repo roots) ≡ false)
      ↔ ((path : RelPath) × SourceOf host repo roots path)
scanned_iff host repo roots = (
  λ h.
      let (path, i) = first_of (scan_files host repo roots) h in
      (path, (scan_files-In host repo path roots).0 i),
  λ (path, s). has_one (scan_files host repo roots) path ((scan_files-In host repo path roots).1 s),
)
  where
    first_of : (paths : List RelPath) → is_nil paths ≡ false → (path : RelPath) × In path paths
    first_of [] h = cc
    first_of (path ∷ paths) h = (path, here refl)

    has_one : (paths : List RelPath) (path : RelPath) → In path paths → is_nil paths ≡ false
    has_one [] path i = elim i [ ]
    has_one (first ∷ paths) path i = refl

-- The check of a binding reports nothing exactly where its checkout conforms: some source file stands
-- under its roots; a binding without a store, or over a connection of its host, has no source file in
-- which a driver's pattern is found, and one with its own connection has such files at exactly the
-- paths that it declares; and each declared file exists and holds what is declared of it.
pub binding_problems_iff :
    (host : Host) (entry : Entry) (repo : Checkout) (drivers : List Driver)
    → (binding_problems host entry repo drivers ≡ []) ↔ Conforms host entry repo drivers
unfolding binding_problems
binding_problems_iff host entry repo drivers = (
  λ h.
      let (p, q) = (gather_two_iff _ _).0 h in
      (
        (scanned_iff host repo entry.scan_roots).0 (report-silent _ _ p),
        Declared-map repo _ _ entry.sqlite (driver_hits_iff host repo drivers entry.scan_roots)
            ((sqlite_problems_iff entry.binding repo hits entry.sqlite).0 q),
      ),
  λ (s, d). (gather_two_iff _ _).1 (
    silent-report _ _ ((scanned_iff host repo entry.scan_roots).1 s),
    (sqlite_problems_iff entry.binding repo hits entry.sqlite).1 (
        Declared-map repo _ _ entry.sqlite
          (λ rel. let (f, g) = driver_hits_iff host repo drivers entry.scan_roots rel in (g, f)) d),
  ),
)
  where
    hits : Hits
    hits = driver_hits host repo entry.scan_roots drivers
