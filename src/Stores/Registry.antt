-- ===== src/Stores/Registry.antt =====
-- The entries of sqlite-stores.json, the checkouts they are checked against, and the problems.
use lazily_spec.Prelude.{ℕ, String, Bool, Option, List}

pub record Timeout : Type 0 where
  pub ms : ℕ
  pub file : String
  pub declaration : String
  pub test : String

-- A declared file, and what it must hold.
pub record Evidence : Type 0 where
  pub file : String
  pub holds : List String

pub record Owned : Type 0 where
  pub store : String
  pub driver_files : List String
  pub busy_timeout : Timeout
  pub two_writer_tests : Evidence
  pub deferred_transaction_guard : Evidence

pub record Hosted : Type 0 where
  pub store : String
  pub file : String
  pub marker : String

-- The member "sqlite": the text "none", or an object with its "connection".
pub data Sqlite : Type 0 where
  no_store : Sqlite
  host_connection : Hosted → Sqlite
  owned_connection : Owned → Sqlite

pub record Entry : Type 0 where
  pub binding : String
  pub repo : String
  pub scan_roots : List String
  pub sqlite : Sqlite

pub record Driver : Type 0 where
  pub id : String
  pub pattern : String

pub record Registry : Type 0 where
  pub busy_timeout_ms : ℕ
  pub bindings : List Entry
  pub drivers : List Driver

-- A path relative to its repository, by its parts; the last is its name.
abbrev pub RelPath : Type 0
RelPath = List String

-- A checkout: what pathlib answers about it. A text that cannot be read is none.
pub record Checkout : Type 0 where
  pub is_dir : String → Bool
  pub iterdir : List RelPath
  pub rglob : String → List RelPath
  pub is_file : RelPath → Bool
  pub read_text : RelPath → Option String
  pub is_declared_file : String → Bool
  pub declared_text : String → String

-- The library functions on paths and patterns.
pub record Host : Type 0 where
  pub suffix : String → String
  pub precedes : RelPath → RelPath → Bool
  pub parent : String → String
  pub search : String → String → Bool
  pub compiles : String → Bool

pub data Problem : Type 0 where
  listed_twice : List String → Problem
  other_bindings : List String → List String → Problem
  other_repo : String → String → Problem
  other_timeout : String → ℕ → ℕ → Problem
  invalid_pattern : String → Problem
  no_sources : String → List String → Problem
  declared_none declared_host undeclared_driver : String → String → List String → Problem
  missing_file no_marker no_store_there stale_driver no_declaration : String → String → Problem
  no_test no_token : String → String → String → Problem
  missing_checkout : String → Problem
