-- ===== src/Cohort/Manifest.antt =====
-- The manifest after its schema was checked, and the options of `validate_semantics`.
use lazily_spec.Prelude.{ℕ, String, Bool, Option, List, [], ◌∷◌, ◌||◌, string_eq}
use lazily_spec.Prelude.Texts.{starts_with, ends_with, has_char}
use lazily_spec.Prelude.{contains}

pub record SourcePin : Type 0 where
  pub repository : String
  pub commit : String
  pub tag : String

pub record Toolchain : Type 0 where
  pub name : String
  pub minimum : String
  pub current : String

pub record CoreRange : Type 0 where
  pub minimum : ℕ
  pub maximum : ℕ

pub record Provenance : Type 0 where
  pub file : String
  pub sha256 : String

pub record Registry : Type 0 where
  pub status : String
  pub metadata_file : String
  pub metadata_sha256 : String

pub record Artifact : Type 0 where
  pub file : String
  pub sha256 : String
  pub provenance : Provenance
  pub registry : Registry

pub record Package : Type 0 where
  pub ecosystem : String
  pub coordinate : String
  pub version : String
  pub artifacts : List Artifact

pub record Gate : Type 0 where
  pub name : String
  pub status : String
  pub evidence_file : String
  pub evidence_sha256 : String

-- `compatibility.core_api` and the ranges of `compatibility.modules` are the binding's last two.
pub record BindingEntry : Type 0 where
  pub id : String
  pub profile : String
  pub source : SourcePin
  pub spec_revision : String
  pub fixture_revision : String
  pub core_api_generation : ℕ
  pub wire_version : String
  pub toolchains : List Toolchain
  pub packages : List Package
  pub gates : List Gate
  pub core_api : CoreRange
  pub module_ranges : List CoreRange

pub record Profile : Type 0 where
  pub status : String
  pub registry_path : String
  pub sha256 : String

pub record Manifest : Type 0 where
  pub cohort_id : String
  pub state : String
  pub profile : Profile
  pub spec : SourcePin
  pub conformance_revision : String
  pub core_api_generation : ℕ
  pub wire_version : String
  pub bindings : List BindingEntry

-- The keyword arguments; a path is a text.
pub record Options : Type 0 where
  pub artifact_root : Option String
  pub repo_root : Option String
  pub spec_root : Option String
  pub require_publish_ready : Bool
  pub require_final : Bool
  pub expected_spec_commit : Option String
  pub expected_binding : Option String
  pub expected_commit : Option String
  pub expected_tag : Option String

abbrev pub expected_bindings : List String
expected_bindings =
    "rust" ∷ "javascript" ∷ "python" ∷ "go" ∷ "kotlin" ∷ "cpp" ∷ "csharp" ∷ "dart" ∷ "zig" ∷ []

abbrev pub pre_publish_gates : List String
pre_publish_gates = "profile" ∷ "api" ∷ "fixture" ∷ "package" ∷ "pre_publish_consumer" ∷ []

abbrev pub required_gates : List String
required_gates =
    "profile" ∷ "api" ∷ "fixture" ∷ "package" ∷ "pre_publish_consumer" ∷ "published_consumer" ∷ []

abbrev pub floating_values : List String
floating_values =
    "head" ∷ "main" ∷ "master" ∷ "latest" ∷ "stable" ∷ "nightly" ∷ "current" ∷ "tip" ∷ "trunk" ∷ []

-- The file system, Git, and `value.strip().lower()` by Unicode's tables. A path is the list of its
-- components; `resolve` follows `..` and symbolic links.
pub record Host : Type 0 where
  pub strip_lower : String → String
  pub resolve : String → List String
  pub resolve_under : String → String → List String
  pub is_file : List String → Bool
  pub sha256_file : List String → String
  pub has_git : String → String → Bool
  pub git_output : String → String → List String → ℕ × String

unfoldable pub is_floating : Host → String → Bool
is_floating host value =
    let normalized = host.strip_lower value in
    contains floating_values normalized
    || starts_with normalized "refs/heads/"
    || has_char "*" normalized
    || ends_with normalized ".x"
