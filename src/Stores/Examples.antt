-- ===== src/Stores/Examples.antt =====
-- A registry of one binding with its own connection, and its checkout.
use lazily_spec.Prelude.{
  String, List, true, false, some, [], ◌∷◌, ◌≡◌, ◌↔◌, refl, ◌==◌, string_eq, nat_eq,
}
use lazily_spec.Prelude.Members.{In}
use lazily_spec.Prelude.Sorted.{sorted, insert_key}
use lazily_spec.Prelude.Texts.{starts_with, ends_with}
use lazily_spec.Prelude.Reports.{report, gather, over}
use lazily_spec.Stores.Registry.{
  Owned, owned_connection, Entry, Driver, Registry, Checkout, Host, undeclared_driver, stale_driver,
}
use lazily_spec.Stores.Identifier.{is_word, ends_there, identifier_from, has_identifier, is_in}
use lazily_spec.Stores.Scan.{
  is_source, candidates, gathered, insert_path, sort_paths, scan_files, found_in, put, note,
  driver_hits_from, driver_hits,
}
use lazily_spec.Stores.Check.{
  has_repeats, entry_problems, registry_problems, insert_hit, sort_hits, reading, stale,
  owned_problems, sqlite_problems, binding_problems,
}
use lazily_spec.Stores.Run.{Options, sibling_problems, checked, problems, main, printed_paths}
use lazily_spec.Stores.Sound.Conforms.{Conforms}
use lazily_spec.Stores.Sound.Binding.{binding_problems_iff}
use lazily_spec.Stores.Sound.Accepted.{Accepted, main_iff}
use lazily_spec.Stores.Sound.Words.{Occurs, has_identifier_iff}
use lazily_spec.Stores.Sound.Sparse.{Needed, printed_paths_iff}

abbrev host : Host
host = record {
  suffix = λ name. ".rs";
  precedes = λ p q. false;
  parent = λ rel. "src";
  search = is_in;
  compiles = λ pattern. true;
}

abbrev source : String
source = "use rusqlite; struct Store; timeout(5000) fn two_writers fn zero BEGIN IMMEDIATE"

abbrev checkout : Checkout
checkout = record {
  is_dir = λ root. root == "src";
  iterdir = [];
  rglob = λ root. ("src" ∷ "store.rs" ∷ []) ∷ [];
  is_file = λ path. true;
  read_text = λ path. some source;
  is_declared_file = λ rel. rel == "src/store.rs";
  declared_text = λ rel. source;
}

abbrev store : Owned
store = record {
  store = "Store";
  driver_files = "src/store.rs" ∷ [];
  busy_timeout = record {
    ms = 5000;
    file = "src/store.rs";
    declaration = "timeout(5000)";
    test = "zero";
  };
  two_writer_tests = record { file = "src/store.rs"; holds = "two_writers" ∷ [] };
  deferred_transaction_guard = record { file = "src/store.rs"; holds = "BEGIN IMMEDIATE" ∷ [] };
}

abbrev entry : Entry
entry = record {
  binding = "rs";
  repo = "lazily-rs";
  scan_roots = "src" ∷ [];
  sqlite = owned_connection store;
}

abbrev driver : Driver
driver = record { id = "rusqlite"; pattern = "rusqlite" }

abbrev registry : Registry
registry = record { busy_timeout_ms = 5000; bindings = entry ∷ []; drivers = driver ∷ [] }

abbrev options : Options
options = record { require_all = true; sibling = λ repo. some checkout }

accepted : main host options registry ≡ 0
unfolding main problems sibling_problems checked registry_problems entry_problems has_repeats
    binding_problems sqlite_problems owned_problems stale reading sort_hits insert_hit driver_hits
    driver_hits_from note put found_in scan_files sort_paths insert_path gathered candidates
    is_source is_in has_identifier identifier_from ends_there is_word starts_with ends_with sorted
    insert_key report gather over
accepted = refl

-- A driver file that is declared nowhere, and a declared one that uses no driver.
undeclared :
    owned_problems "rs" checkout (("src/other.rs", "rusqlite" ∷ []) ∷ []) store
    ≡ undeclared_driver "rs" "src/other.rs" ("rusqlite" ∷ [])
      ∷ stale_driver "rs" "src/store.rs"
      ∷ []
unfolding owned_problems stale reading sort_hits insert_hit is_in has_identifier identifier_from
    ends_there is_word starts_with sorted insert_key report gather over
undeclared = refl

binding_problems_iff_example :
    (binding_problems host entry checkout (driver ∷ []) ≡ [])
    ↔ Conforms host entry checkout (driver ∷ [])
binding_problems_iff_example = binding_problems_iff host entry checkout (driver ∷ [])

main_iff_example : (main host options registry ≡ 0) ↔ Accepted host options registry
main_iff_example = main_iff host options registry refl

has_identifier_iff_example : (has_identifier source "Store" ≡ true) ↔ Occurs false source "Store"
has_identifier_iff_example = has_identifier_iff source "Store"

abbrev src : String
src = "src"

printed_paths_iff_example :
    (paths : List String) × (printed_paths host registry "rs" ≡ some paths)
    × (In src paths ↔ Needed host entry src)
printed_paths_iff_example = printed_paths_iff host registry [] [] entry src refl tt tt
