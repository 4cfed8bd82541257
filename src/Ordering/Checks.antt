-- ===== src/Ordering/Checks.antt =====
-- `CHECKS` and `CONSUMPTION_UNCONFIGURED` of scripts/check-assertion-ordering.py.
pub mod Compiled
pub mod Scripted
use lazily_spec.Prelude.{String, Option, none, some, List, [], ◌∷◌, ◌==◌, string_eq, if◌then◌else◌}
use lazily_spec.Ordering.Check.{OrderedCheck}
use lazily_spec.Ordering.Checks.Compiled.{rs_checks, go_checks, cpp_checks, zig_checks, cs_checks}
use lazily_spec.Ordering.Checks.Scripted.{py_checks, js_checks, dart_checks, kt_checks, gd_checks}

-- A Python dict, by its items.
abbrev pub Dict : Type 0 → Type 0
Dict A = List (String × A)

-- d[key], none where there is no such key
unfoldable pub lookup : {A : Type 0} → String → Dict A → Option A
lookup key [] = none
lookup key ((k, a) ∷ rest) = let later = lookup key rest in if k == key then some a else later

abbrev pub all_checks : Dict (List OrderedCheck)
all_checks =
    ("rs", rs_checks)
    ∷ ("py", py_checks)
    ∷ ("js", js_checks)
    ∷ ("go", go_checks)
    ∷ ("cpp", cpp_checks)
    ∷ ("dart", dart_checks)
    ∷ ("kt", kt_checks)
    ∷ ("zig", zig_checks)
    ∷ ("gd", gd_checks)
    ∷ ("cs", cs_checks)
    ∷ []

-- What is looked for in a binding that the consumption guard does not configure.
pub record Exemption : Type 0 where
  pub reason : String
  pub globs : List String
  pub call_names : List String

abbrev pub consumption_unconfigured : Dict Exemption
consumption_unconfigured =
    (
      "gd",
      record {
        reason =
            "lazily-gd asserts through `_check` / `_observe` directly and declares no callback-taking assertion API, so there is no callback whose fixture-value parameter could go unread. Teach check-assert-with-consumption.py GDScript (a `_gd_definitions` tokenizer beside `_zig_definitions`) if one lands.";
        globs = "tests/**/*.gd" ∷ "scripts/**/*.gd" ∷ [];
        call_names =
            "assert_key_with" ∷ "assertKeyWith" ∷ "AssertKeyWith" ∷ "assert_key_if_present"
            ∷ "assertKeyIfPresent" ∷ "assertKeyWithOpt" ∷ "assert_key_with_if_present"
            ∷ "TryAssertKeyWith" ∷ "AssertKeyInto" ∷ [];
      },
    )
    ∷ []
